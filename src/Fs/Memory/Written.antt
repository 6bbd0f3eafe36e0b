-- ===== src/Fs/Memory/Written.antt =====
-- What is read of a file that `WriteFile` of pkg/fs/memory/fs.go has written.
use skylark.Base.{
  ℕ, ◌%◌, ◌<◌, ◌≡◌, refl, ap, sym, ◌∙◌, true, false, not, ◌||◌, List, [], ◌∷◌, ◌++◌, none, some, ok,
  err, is_ok, length, length-append, arith, ◌==◌, ℕ_eq, List_eq, ==_iff, ==_refl, if-cases,
  Bool-cases, inl, inr,
}
use mathlib.Core.List.{append_assoc, append-nil}
use mathlib.Core.Path.{ap₂}
use skylark.Base.Dict.{lookup, insert, lookup-insert}
use skylark.Text.{Text}
use skylark.Text.Split.{split_on, join_on, join_on-split_on}
use skylark.Fs.File.{File, clone}
use skylark.Fs.Memory.{
  Fs, Done, file_node, slash, valid_path, reversed, parts, path_of, base, above, has_dir,
  file_above, add_dir, mkdir_parts, open_, open_node, put_file, write_file, dot,
}

abbrev tails : List Text → Text
tails [] = []
tails (l ∷ ls) = slash ∷ (l ++ tails ls)

join_on-tails : (l : Text) (ls : List Text) → join_on slash (l ∷ ls) ≡ l ++ tails ls
join_on-tails l [] = sym (append-nil l)
join_on-tails l (m ∷ ls) = ap (λ s. l ++ (slash ∷ s)) (join_on-tails m ls)

path_of-reversed :
    (ls : List Text) (a : Text) (acc : List Text)
    → path_of (reversed ls (a ∷ acc)) ≡ path_of (a ∷ acc) ++ tails ls
path_of-reversed [] a acc = sym (append-nil (path_of (a ∷ acc)))
path_of-reversed (l ∷ ls) a acc =
    path_of-reversed ls l (a ∷ acc) ∙ append_assoc (path_of (a ∷ acc)) (slash ∷ l) (tails ls)

path_of-split : (ls : List Text) → path_of (reversed ls []) ≡ join_on slash ls
path_of-split [] = refl
path_of-split (l ∷ ls) = path_of-reversed ls l [] ∙ sym (join_on-tails l ls)

-- The parts of a path make it up again.
path_of-parts : (name : Text) → path_of (parts name) ≡ name
path_of-parts name = path_of-split (split_on slash name) ∙ join_on-split_on slash name

length-path_of_above :
    (p : Text) (q : Text) (ps : List Text)
    → length (path_of (q ∷ ps)) < length (path_of (p ∷ q ∷ ps))
length-path_of_above p q ps = omega (arith, length-append (path_of (q ∷ ps)) (slash ∷ p))

-- Two texts of different lengths differ.
longer : (a b : Text) → length a < length b → (a == b) ≡ false
longer a b h = elim (Bool-cases (a == b)) [
  | inl e ↦ absurd (omega (arith, h, ap length ((==_iff a b).0 e)))
  | inr e ↦ e
]

abbrev Keeps : Text → Fs → Done × Fs → Type 0
Keeps k f r = lookup k r.1.dirs ≡ lookup k f.dirs

add_dir-Keeps :
    (now mode : ℕ) (ps : List Text) (k : Text) (f : Fs) (r : Done × Fs)
    → length (path_of ps) < length k
    → Keeps k f r
    → Keeps k f (add_dir now mode ps r)
unfolding add_dir
add_dir-Keeps now mode ps k f (err e, g) h same = same
add_dir-Keeps now mode ps k f (ok u, g) h same =
    lookup-insert (path_of ps) k _ g.dirs ∙ rw (longer (path_of ps) k h) same

-- Making directories touches none whose path is longer.
mkdir_parts-Keeps :
    (now mode : ℕ) (ps : List Text) (k : Text) (f : Fs)
    → length (path_of ps) < length k
    → Keeps k f (mkdir_parts now mode ps f)
unfolding mkdir_parts
mkdir_parts-Keeps now mode [] k f h = refl
mkdir_parts-Keeps now mode (p ∷ []) k f h =
    if-cases (Keeps k f) (has_dir f (path_of (p ∷ []))) _ _ (λ e. refl)
      (λ e. add_dir-Keeps now mode (p ∷ []) k f (ok tt, f) h refl)
mkdir_parts-Keeps now mode (p ∷ q ∷ ps) k f h =
    if-cases (Keeps k f) (file_above f (q ∷ ps)) _ _ (λ e. refl)
      (λ e.
        if-cases (Keeps k f) (has_dir f (path_of (p ∷ q ∷ ps))) _ _ (λ e. refl)
          (λ e. add_dir-Keeps now mode (p ∷ q ∷ ps) k f (mkdir_parts now mode (q ∷ ps) f) h (
            mkdir_parts-Keeps now mode (q ∷ ps) k f
              (omega (arith, h, length-path_of_above p q ps)))))

mkdir_above-Keeps :
    (now : ℕ) (ps : List Text) (k : Text) (f : Fs)
    → path_of ps ≡ k
    → Keeps k f (mkdir_parts now 511 (above ps) f)
unfolding mkdir_parts
mkdir_above-Keeps now [] k f e = refl
mkdir_above-Keeps now (p ∷ []) k f e = refl
mkdir_above-Keeps now (p ∷ q ∷ ps) k f e =
    mkdir_parts-Keeps now 511 (q ∷ ps) k f (omega (arith, length-path_of_above p q ps, ap length e))

abbrev pub written : ℕ → Text → Text → ℕ → File
written now name data_ mode = record {
  name = base (parts name);
  data_ = data_;
  mode = mode % 512;
  mod_time = now;
  offset = 0;
}

module _ (now : ℕ) (name data_ : Text) (mode : ℕ) (f : Fs) (valid : valid_path name ≡ true)
    (no_dir : lookup name f.dirs ≡ none) where
  abbrev Opens : Done × Fs → Type 0
  Opens r = is_ok r.0 ≡ true → open_ name r.1 ≡ ok (file_node (written now name data_ mode))

  put_file-Opens : (r : Done × Fs) → Keeps name f r → Opens (put_file now mode name data_ r)
  unfolding put_file open_ open_node clone
  put_file-Opens (err e, g) same = λ h. absurd (cc h)
  put_file-Opens (ok u, g) same = λ h. rw valid (ap₂ (open_node name) (same ∙ no_dir) (found g))
    where
      found :
          (g : Fs)
          → lookup name (insert name (written now name data_ mode) g.files)
            ≡ some (written now name data_ mode)
      found g =
          lookup-insert name name (written now name data_ mode) g.files ∙ rw (==_refl name) refl

  -- A file that has been written, where no directory has its path, is opened with the data written,
  -- from their beginning, under the last part of its path and with the bits of permission of its mode.
  pub open-write_file :
      is_ok (write_file now name data_ mode f).0 ≡ true
      → open_ name (write_file now name data_ mode f).1
        ≡ ok (file_node (written now name data_ mode))
  unfolding write_file
  open-write_file =
      if-cases Opens (not (valid_path name) || name == dot) _ _ (λ e h. absurd (cc h))
        (λ e.
          if-cases Opens (file_above f (above (parts name))) _ _ (λ e h. absurd (cc h))
            (λ e.
              put_file-Opens (mkdir_parts now 511 (above (parts name)) f)
                (mkdir_above-Keeps now (parts name) name f (path_of-parts name))))
