-- ===== src/Fs/Memory/Listing.antt =====
-- ReadDir of pkg/fs/memory/fs.go. Two nodes of one name, a file and a directory, are in either order
-- there; here the one that was collected first stands first.
pub mod Entries
pub mod Ordered
use skylark.Base.{
  Bool, true, false, not, ◌&&◌, ◌||◌, List, [], ◌∷◌, ◌++◌, Result, ok, err, ltb, ◌==◌,
  if◌then◌else◌, length, drop, List_eq, ℕ_eq,
}
use skylark.Base.Dict.{Dict}
use skylark.Text.{Text, has_prefix, contains}
use skylark.Fs.File.{File}
use skylark.Fs.Memory.{
  Fs, Dir, FsError, Node, dir_node, file_node, valid_path, has_dir, slash, dot, invalid, not_exist,
  not_directory, has_file,
}

-- a < b on strings
abbrev pub before : Text → Text → Bool
before s [] = false
before [] (b ∷ t) = true
before (a ∷ s) (b ∷ t) = let rest = before s t in ltb a b || (a == b && rest)

abbrev pub node_name : Node → Text
node_name (dir_node d) = d.name
node_name (file_node file) = file.name

abbrev pub prefix_of : Text → Text
prefix_of name = if name == dot then [] else name ++ (slash ∷ [])

-- A path in the directory itself, not further below it.
unfoldable pub directly_in : Text → Text → Bool
directly_in name p =
    has_prefix p (prefix_of name) && not (contains (drop (length (prefix_of name)) p) (slash ∷ []))

unfoldable pub subdirectories : Text → Dict Text Dir → List Node
unfolding directly_in
subdirectories name [] = []
subdirectories name ((p, d) ∷ m) =
    let rest = subdirectories name m in
    if not (p == name) && directly_in name p then dir_node d ∷ rest else rest

unfoldable pub files_in : Text → Dict Text File → List Node
unfolding directly_in
files_in name [] = []
files_in name ((p, file) ∷ m) =
    let rest = files_in name m in if directly_in name p then file_node file ∷ rest else rest

unfoldable pub insert_node : Node → List Node → List Node
insert_node n [] = n ∷ []
insert_node n (m ∷ ns) =
    let rest = insert_node n ns in
    if before (node_name m) (node_name n) then m ∷ rest else n ∷ m ∷ ns

unfoldable pub sort_nodes : List Node → List Node
unfolding insert_node
sort_nodes [] = []
sort_nodes (n ∷ ns) = insert_node n (sort_nodes ns)

-- ReadDir
unfoldable pub read_dir : Text → Fs → Result FsError (List Node)
unfolding subdirectories files_in sort_nodes
read_dir name f =
    if not (valid_path name)
    then err (invalid name)
    else if has_file f name
    then err (not_directory name)
    else if not (has_dir f name) && not (name == dot)
    then err (not_exist name)
    else ok (sort_nodes (subdirectories name f.dirs ++ files_in name f.files))
