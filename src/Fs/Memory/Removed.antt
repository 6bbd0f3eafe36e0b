-- ===== src/Fs/Memory/Removed.antt =====
-- What `RemoveAll` of pkg/fs/memory/fs.go removes.
use skylark.Base.{◌≡◌, refl, true, ◌||◌, none, if◌then◌else◌, ◌==◌, List_eq, ℕ_eq, ok}
use skylark.Base.Dict.{lookup, lookup-remove_if}
use skylark.Text.{Text}
use skylark.Fs.Memory.{Fs, remove_all, below, valid_path}

-- A directory goes with all below it, and all else stays. A file that has the path itself stays too.
lookup-remove_all :
    (path p : Text) (f : Fs)
    → valid_path path ≡ true
    → ((remove_all path f).0 ≡ ok tt)
      × (lookup p (remove_all path f).1.dirs
          ≡ (if p == path || below path p then none else lookup p f.dirs))
      × (lookup p (remove_all path f).1.files ≡ (if below path p then none else lookup p f.files))
unfolding remove_all
lookup-remove_all path p f v = rw v (
  refl,
  lookup-remove_if (λ q. q == path || below path q) p f.dirs,
  lookup-remove_if (λ q. below path q) p f.files,
)
