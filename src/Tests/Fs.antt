-- ===== src/Tests/Fs.antt =====
-- Runs of pkg/fs/memory/fs.go.
use skylark.Base.{
  ◌↔◌, false, keep, length, List, Bool, some, refl, ok, ◌≡◌, none, List_eq, ℕ_eq, is_ok, true, drop,
  [], ◌∷◌, arith, ◌++◌,
}
use skylark.Base.Dict.{lookup, insert, remove}
use skylark.Text.{bytes}
use skylark.Fs.File.{File, eof}
use skylark.Fs.File.ReadAll.{read_loop, read_loop_all}
use skylark.Fs.Memory.{
  Fs, Node, has_file, has_dir, dir_node, file_node, write_file, open_, mkdir_parts, put_file,
  add_dir,
}
use mathlib.Core.List.{Memᴰ}
use skylark.Fs.Memory.Listing.Entries.{IsEntry}
use skylark.Fs.Memory.Listing.Ordered.{IsOrdered, read_dir-IsOrdered}
use skylark.Fs.Memory.Listing.{
  read_dir, subdirectories, files_in, directly_in, sort_nodes, insert_node,
}
use skylark.Fs.Memory.Rename.{rename, rename_found, rename_file}
use skylark.Fs.Memory.Written.{written, open-write_file}

abbrev empty_fs : Fs
empty_fs = record { files = []; dirs = [] }

abbrev note_file : File
note_file = written 7 (bytes "a/note") (bytes "hello") 420

note_is_written : is_ok (write_file 7 (bytes "a/note") (bytes "hello") 420 empty_fs).0 ≡ true
unfolding write_file put_file mkdir_parts add_dir lookup
note_is_written = refl

no_note_dir : lookup (bytes "a/note") empty_fs.dirs ≡ none
unfolding lookup
no_note_dir = refl

open-write_file_example :
    open_ (bytes "a/note") (write_file 7 (bytes "a/note") (bytes "hello") 420 empty_fs).1
    ≡ ok (file_node note_file)
open-write_file_example =
    open-write_file 7 (bytes "a/note") (bytes "hello") 420 empty_fs refl no_note_dir note_is_written

abbrev one_file : Fs
one_file = record { files = (bytes "a", note_file) ∷ (bytes "a/b", note_file) ∷ []; dirs = [] }

read_loop_all_example : read_loop 6 2 note_file ≡ some (drop 0 (bytes "hello"), eof)
read_loop_all_example = read_loop_all 6 2 note_file (omega arith) (omega arith)

abbrev folder_fs : Fs
folder_fs = record {
  files = (bytes "a/note", note_file) ∷ (bytes "c", note_file) ∷ [];
  dirs = (bytes "a", record { name = bytes "a"; mode = 511; mod_time = 1 }) ∷ [];
}

-- A file that is renamed to its own name is lost.
renamed_to_itself : lookup (bytes "c") (rename 9 (bytes "c") (bytes "c") folder_fs).1.files ≡ none
unfolding rename rename_found rename_file mkdir_parts lookup insert remove
renamed_to_itself = refl

-- Only the nodes directly in the directory are listed.
listed :
    read_dir
      (bytes "a")
      (write_file 9 (bytes "a/b/deep") [] 420 (write_file 9 (bytes "a/top") [] 420 folder_fs).1).1
    ≡ ok (
        dir_node (record { name = bytes "b"; mode = 511; mod_time = 9 })
        ∷ file_node note_file
        ∷ file_node (written 9 (bytes "a/top") [] 420)
        ∷ [])
unfolding read_dir subdirectories files_in directly_in sort_nodes insert_node write_file put_file
    mkdir_parts add_dir lookup insert
listed = refl

not_a_file : has_file folder_fs (bytes "a") ≡ false
unfolding lookup
not_a_file = refl

a_folder : has_dir folder_fs (bytes "a") ≡ true
unfolding lookup
a_folder = refl

read_dir-IsOrdered_example :
    (ns : List Node) × (read_dir (bytes "a") folder_fs ≡ ok ns)
    × IsOrdered ns
    × ((x : Node) → Memᴰ x ns ↔ IsEntry (bytes "a") folder_fs x)
    × ((test : Node → Bool)
        → length (keep test ns)
          ≡ length (
              keep test (
                subdirectories (bytes "a") folder_fs.dirs ++ files_in (bytes "a") folder_fs.files)))
read_dir-IsOrdered_example = read_dir-IsOrdered (bytes "a") folder_fs refl not_a_file a_folder
