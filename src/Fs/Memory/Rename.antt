-- ===== src/Fs/Memory/Rename.antt =====
-- Stat and Rename of pkg/fs/memory/fs.go.
pub mod Entries
pub mod Moved
use skylark.Base.{
  ℕ, List, [], ◌∷◌, ◌++◌, map, Option, none, some, Result, ok, err, if◌then◌else◌, ◌&&◌, ◌+◌,
  length, drop, List_eq, ℕ_eq,
}
use skylark.Base.Dict.{Dict, lookup, insert, remove}
use skylark.Text.{Text}
use skylark.Fs.File.{File}
use skylark.Fs.Memory.{
  Fs, Dir, Done, FsError, Node, dir_node, file_node, valid_path, parts, base, above, below, slash,
  mkdir_parts, invalid, not_exist,
}

unfoldable pub stat_node : Text → Option Dir → Option File → Result FsError Node
stat_node name (some d) file = ok (dir_node d)
stat_node name none (some file) = ok (file_node file)
stat_node name none none = err (not_exist name)

-- Stat
unfoldable pub stat : Text → Fs → Result FsError Node
unfolding stat_node
stat name f =
    if valid_path name
    then stat_node name (lookup name f.dirs) (lookup name f.files)
    else err (invalid name)

-- newprefix + strings.TrimPrefix(p, oldprefix)
abbrev pub moved_path : (old_path new_path p : Text) → Text
moved_path old_path new_path p = new_path ++ (slash ∷ drop (length old_path + 1) p)

module _ {A : Type 0} where
  unfoldable pub move_entry : (p q : Text) → Option A → Dict Text A → Dict Text A
  move_entry p q none m = m
  move_entry p q (some x) m = remove p (insert q x m)

  -- A loop over a map that it changes, in the order of `ps`, the keys before the loop: one that is not
  -- there any more is passed over, and those that the loop adds are not visited, which Go leaves open
  -- and which is the same where no added path is below the old one.
  unfoldable pub move_entries : (old_path new_path : Text) → List Text → Dict Text A → Dict Text A
  unfolding move_entry
  move_entries old_path new_path [] m = m
  move_entries old_path new_path (p ∷ ps) m =
      move_entries old_path new_path ps (
        if below old_path p
        then move_entry p (moved_path old_path new_path p) (lookup p m) m
        else m)

  unfoldable pub move_all : (old_path new_path : Text) → Dict Text A → Dict Text A
  unfolding move_entries
  move_all old_path new_path m = move_entries old_path new_path (map (λ entry. entry.0) m) m

unfoldable pub rename_dir : (old_path new_path : Text) → Dir → Done × Fs → Done × Fs
unfolding move_all
rename_dir old_path new_path d (err e, f) = (err e, f)
rename_dir old_path new_path d (ok u, f) = (
  ok tt,
  record {
    dirs =
        move_all old_path new_path
          (remove old_path (insert new_path (record d { name = base (parts new_path) }) f.dirs));
    files = move_all old_path new_path f.files;
  },
)

unfoldable pub rename_file : (old_path new_path : Text) → File → Done × Fs → Done × Fs
rename_file old_path new_path file (err e, f) = (err e, f)
rename_file old_path new_path file (ok u, f) = (
  ok tt,
  record f {
    files =
        remove old_path (insert new_path (record file { name = base (parts new_path) }) f.files);
  },
)

unfoldable pub rename_found :
    (old_path new_path : Text) → Option Dir → Option File → Done × Fs → Fs → Done × Fs
unfolding rename_dir rename_file
rename_found old_path new_path (some d) file made f = rename_dir old_path new_path d made
rename_found old_path new_path none (some file) made f = rename_file old_path new_path file made
rename_found old_path new_path none none made f = (err (not_exist old_path), f)

-- Rename
unfoldable pub rename : ℕ → (old_path new_path : Text) → Fs → Done × Fs
unfolding rename_found mkdir_parts
rename now old_path new_path f =
    if valid_path old_path && valid_path new_path
    then rename_found old_path new_path (lookup old_path f.dirs) (lookup old_path f.files)
        (mkdir_parts now 511 (above (parts new_path)) f) f
    else (err (invalid old_path), f)
