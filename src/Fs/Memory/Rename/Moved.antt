-- ===== src/Fs/Memory/Rename/Moved.antt =====
-- What is read of the files in a folder that Rename of pkg/fs/memory/fs.go has moved.
use skylark.Base.{false, ◌∷◌, ◌++◌, none, some, List_eq, ℕ_eq, ◌≡◌}
use skylark.Base.Dict.{Dict, lookup}
use skylark.Fs.File.{File}
use skylark.Text.{Text}
use skylark.Fs.Memory.{Fs, below, slash}

-- What has become of the files when a folder is moved.
abbrev IsMoved : (old_path new_path : Text) → Dict Text File → Dict Text File → Type 0
IsMoved old_path new_path before after =
    ((rel : Text) (x : File)
      → lookup (old_path ++ (slash ∷ rel)) before ≡ some x
      → (lookup (old_path ++ (slash ∷ rel)) after ≡ none)
        × (lookup (new_path ++ (slash ∷ rel)) after ≡ some x))
    × ((j : Text)
        → below old_path j ≡ false
        → below new_path j ≡ false
        → lookup j after ≡ lookup j before)
