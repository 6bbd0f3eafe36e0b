-- ===== src/Fs/Memory.antt =====
-- `FS` of pkg/fs/memory/fs.go. A path is a text; the paths are in UTF-8, which `fs.ValidPath` asks
-- for. The time is an argument. `Glob`, which lists names, is left out.
pub mod Written
pub mod Removed
pub mod Rename
pub mod Listing
use skylark.Base.{
  ℕ, suc, Result, Bool, List, if◌then◌else◌, Option, err, ◌==◌, ◌∷◌, [], false, ok, some, ℕ_eq,
  List_eq, not, ◌++◌, any, none, ◌||◌, true, ◌%◌,
}
use skylark.Base.Dict.{Dict, lookup, insert, remove, remove_if}
use skylark.Text.{Text, bytes, has_prefix, is_nil}
use skylark.Text.Split.{split_on, join_on}
use skylark.Fs.File.{File, clone}

abbrev slash : ℕ
slash = 47

pub record Dir : Type 0 where
  pub name : Text
  pub mode : ℕ
  pub mod_time : ℕ

pub record Fs : Type 0 where
  pub files : Dict Text File
  pub dirs : Dict Text Dir

pub data FsError : Type 0 where
  invalid not_exist parent_is_file not_empty not_directory : Text → FsError

pub data Node : Type 0 where
  dir_node : Dir → Node
  file_node : File → Node

abbrev pub Done : Type 0
Done = Result FsError (Unit {0})

abbrev pub dot : Text
dot = bytes "."

-- fs.ValidPath
abbrev pub valid_path : Text → Bool
valid_path name =
    name == dot
    || not (any (λ part. is_nil part || part == dot || part == bytes "..") (split_on slash name))

abbrev pub reversed : List Text → List Text → List Text
reversed [] acc = acc
reversed (p ∷ ps) acc = reversed ps (p ∷ acc)

-- The parts of a valid path, the last one first.
abbrev pub parts : Text → List Text
parts name = reversed (split_on slash name) []

-- The path whose parts these are, the last one first: filepath.Join(parts[:i]...)
abbrev pub path_of : List Text → Text
path_of [] = []
path_of (p ∷ []) = p
path_of (p ∷ q ∷ ps) = path_of (q ∷ ps) ++ (slash ∷ p)

-- filepath.Base
abbrev pub base : List Text → Text
base [] = dot
base (p ∷ ps) = p

-- The parts of filepath.Dir, none for "."
abbrev pub above : List Text → List Text
above [] = []
above (p ∷ ps) = ps

abbrev pub has_file : Fs → Text → Bool
has_file f path = elim (lookup path f.files) [ none ↦ false | some x ↦ true ]

abbrev pub has_dir : Fs → Text → Bool
has_dir f path = elim (lookup path f.dirs) [ none ↦ false | some x ↦ true ]

-- Whether a path, or one above it, is a file.
abbrev pub file_above : Fs → List Text → Bool
file_above f [] = false
file_above f (p ∷ ps) = has_file f (path_of (p ∷ ps)) || file_above f ps

unfoldable pub add_dir : ℕ → ℕ → List Text → Done × Fs → Done × Fs
add_dir now mode ps (err e, f) = (err e, f)
add_dir now mode ps (ok u, f) = (
  ok tt,
  record f {
    dirs =
        insert (path_of ps) (record { name = base ps; mode = mode % 512; mod_time = now }) f.dirs;
  },
)

-- mkdirAll on a valid path, given by its parts
unfoldable pub mkdir_parts : ℕ → ℕ → List Text → Fs → Done × Fs
unfolding add_dir
mkdir_parts now mode [] f = (ok tt, f)
mkdir_parts now mode (p ∷ ps) f =
    let made = mkdir_parts now mode ps f in
    if file_above f ps
    then (err (parent_is_file (path_of (p ∷ ps))), f)
    else if has_dir f (path_of (p ∷ ps))
    then (ok tt, f)
    else add_dir now mode (p ∷ ps) made

unfoldable mkdir_all : ℕ → ℕ → Text → Fs → Done × Fs
unfolding mkdir_parts
mkdir_all now mode path f =
    if valid_path path then mkdir_parts now mode (parts path) f else (err (invalid path), f)

unfoldable pub open_node : Text → Option Dir → Option File → Result FsError Node
unfolding clone
open_node name (some d) file = ok (dir_node d)
open_node name none (some file) = ok (file_node (clone file))
open_node name none none = err (not_exist name)

unfoldable pub open_ : Text → Fs → Result FsError Node
unfolding open_node
open_ name f =
    if valid_path name
    then open_node name (lookup name f.dirs) (lookup name f.files)
    else err (invalid name)

-- The file is created or updated, once its directory is there.
unfoldable pub put_file : ℕ → ℕ → Text → Text → Done × Fs → Done × Fs
put_file now mode name data_ (err e, f) = (err e, f)
put_file now mode name data_ (ok u, f) = (
  ok tt,
  record f {
    files =
        insert name
          (record {
            name = base (parts name);
            data_ = data_;
            mode = mode % 512;
            mod_time = now;
            offset = 0;
          })
          f.files;
  },
)

-- WriteFile: the directories above are made with mode 0777
unfoldable pub write_file : ℕ → Text → Text → ℕ → Fs → Done × Fs
unfolding put_file mkdir_parts
write_file now name data_ mode f =
    if not (valid_path name) || name == dot
    then (err (invalid name), f)
    else if file_above f (above (parts name))
    then (err (parent_is_file name), f)
    else put_file now mode name data_ (mkdir_parts now 511 (above (parts name)) f)

-- strings.HasPrefix(p, name + "/")
abbrev pub below : Text → Text → Bool
below name p = has_prefix p (name ++ (slash ∷ []))

abbrev some_below : {A : Type 0} → Text → Dict Text A → Bool
some_below name m = any (λ entry. below name entry.0) m

-- Remove
unfoldable remove_ : Text → Fs → Done × Fs
remove_ name f =
    if not (valid_path name)
    then (err (invalid name), f)
    else if has_dir f name
    then (if some_below name f.dirs || some_below name f.files
        then (err (not_empty name), f)
        else (ok tt, record f { dirs = remove name f.dirs }))
    else if has_file f name
    then (ok tt, record f { files = remove name f.files })
    else (err (not_exist name), f)

-- RemoveAll
unfoldable pub remove_all : Text → Fs → Done × Fs
remove_all path f = if not (valid_path path) then (err (invalid path), f) else (
  ok tt,
  record {
    dirs = remove_if (λ p. p == path || below path p) f.dirs;
    files = remove_if (λ p. below path p) f.files;
  },
)
