-- ===== src/Tests/Security.antt =====
-- Runs of pkg/security.
use skylark.Base.{refl, ◌∷◌, false, Result, ◌≡◌, some, none, is_ok, [], ok, true}
use skylark.Base.Int.{pos}
use skylark.Text.{Text, bytes}
use skylark.Security.Paths.{abs, clean, rooted, is_sub_path, begins, is_sub_path-rooted}
use skylark.Security.FileGuard.{FileGuard, FileInfo, StatError, check_read, check_write, covers}
use skylark.Security.FileGuard.Policy.{
  adds, removes, edit_all, permits, IsLogged, check_read-permits, check-edit_all_blocked,
}

abbrev home_guard : FileGuard
home_guard = record {
  allowed = bytes "/home" ∷ [];
  blocked_list = bytes "/home/keys" ∷ [];
  max_size = pos 100;
  symlinks = false;
  audited = true;
}

abbrev small_file : FileInfo
small_file = record { is_dir = false; is_link = false; size = 20 }

abbrev small_files : Text → Result StatError FileInfo
small_files path = ok small_file

cleaned : clean (bytes "/a/./b//../c/") ≡ bytes "/a/c"
unfolding clean
cleaned = refl

note_path : abs (some (bytes "/home")) (bytes "x/../note") ≡ some (bytes "/home/note")
unfolding abs clean
note_path = refl

key_path : abs none (bytes "/home/keys/a") ≡ some (bytes "/home/keys/a")
unfolding abs clean
key_path = refl

key_covered : covers home_guard.blocked_list (bytes "/home/keys/a") ≡ true
unfolding is_sub_path clean
key_covered = refl

is_sub_path-rooted_example :
    is_sub_path (rooted (bytes "ab" ∷ [])) (rooted (bytes "a" ∷ []))
    ≡ begins (bytes "a" ∷ []) (bytes "ab" ∷ [])
is_sub_path-rooted_example = is_sub_path-rooted (bytes "a") [] (bytes "ab") [] refl refl

check_read-permits_example :
    (is_ok (check_read (some (bytes "/home")) small_files home_guard (bytes "x/../note")).0
      ≡ permits home_guard (bytes "/home/note") small_file)
    × IsLogged home_guard
        (bytes "/home/note")
        (check_read (some (bytes "/home")) small_files home_guard (bytes "x/../note"))
check_read-permits_example =
    check_read-permits (some (bytes "/home")) small_files home_guard (bytes "x/../note")
      (bytes "/home/note") small_file refl note_path

check-edit_all_blocked_example :
    (is_ok
        (check_read none small_files
          (edit_all none (adds (bytes "/home/keys") ∷ removes (bytes "/home") ∷ []) home_guard)
          (bytes "/home/keys/a")).0
      ≡ false)
    × (is_ok
          (check_write none small_files
            (edit_all none (adds (bytes "/home/keys") ∷ removes (bytes "/home") ∷ []) home_guard)
            (bytes "/home/keys/a")).0
        ≡ false)
check-edit_all_blocked_example =
    check-edit_all_blocked none small_files home_guard
      (adds (bytes "/home/keys") ∷ removes (bytes "/home") ∷ []) (bytes "/home/keys/a")
      (bytes "/home/keys/a") key_path key_covered
