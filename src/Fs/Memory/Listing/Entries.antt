-- ===== src/Fs/Memory/Listing/Entries.antt =====
-- Which nodes are in a directory of pkg/fs/memory/fs.go.
use skylark.Base.{
  Bool, true, false, not, ◌&&◌, [], ◌∷◌, ◌++◌, ◌==◌, if-cases, length, drop, drop_append, any,
  List_eq, ℕ_eq, ◌≡◌, ◌≢◌, ◌⊎◌, ◌↔◌, refl, ap, sym, ◌∙◌, arith, Bool-cases, inl, inr, ==_iff, subst,
}
use skylark.Base.Dict.{Dict}
use skylark.Text.{Text, contains, has_prefix}
use skylark.Text.Prefix.{has_prefix-append, has_prefix-drop}
use skylark.Fs.File.{File}
use skylark.Fs.Memory.{Fs, Dir, Node, dir_node, file_node, dot, slash}
use skylark.Fs.Memory.Listing.{directly_in, subdirectories, files_in, prefix_of}
use mathlib.Core.List.Memᴰ
use mathlib.Core.List.{Memᴰ, append_assoc}

abbrev has_slash : Text → Bool
has_slash = any (λ c. c == slash)

-- A path is that of a node in a directory, by its name there.
pub record IsIn (name p : Text) : Type 0 where
  own_name : Text
  path : ((name ≡ dot) × (p ≡ own_name)) ⊎ ((name ≢ dot) × (p ≡ name ++ (slash ∷ own_name)))
  one_part : has_slash own_name ≡ false

contains-has_slash : (t : Text) → contains t (slash ∷ []) ≡ has_slash t
contains-has_slash [] = refl
contains-has_slash (c ∷ t) = ground (arith, contains-has_slash t)

-- What is asked of a path under a prefix.
abbrev under : Text → Text → Bool
under prefix p = has_prefix p prefix && not (contains (drop (length prefix) p) (slash ∷ []))

under-split :
    (prefix p : Text)
    → under prefix p ≡ true
    → (p ≡ prefix ++ drop (length prefix) p) × (has_slash (drop (length prefix) p) ≡ false)
under-split prefix p h = (
  has_prefix-drop p prefix (ground (arith, h)),
  ground (arith, h, contains-has_slash (drop (length prefix) p)),
)

under-append : (prefix rest : Text) → has_slash rest ≡ false → under prefix (prefix ++ rest) ≡ true
under-append prefix rest h = ground (
  arith,
  has_prefix-append prefix rest,
  ap (λ t. contains t (slash ∷ [])) (drop_append prefix rest),
  contains-has_slash rest,
  h,
)

own_prefix : (name : Text) → (name == dot) ≡ false → prefix_of name ≡ name ++ (slash ∷ [])
own_prefix name e = rw e refl

directly_in-under :
    (name p prefix : Text) → prefix_of name ≡ prefix → directly_in name p ≡ under prefix p
unfolding directly_in
directly_in-under name p prefix e = ap (λ t. under t p) e

directly_in-IsIn : (name p : Text) → (directly_in name p ≡ true) ↔ IsIn name p
directly_in-IsIn name p = elim (Bool-cases (name == dot)) [
  | inl e ↦
      let here : prefix_of name ≡ [] = rw e refl in
      (
        λ h.
            let s = under-split [] p (sym (directly_in-under name p [] here) ∙ h) in
            record { own_name = p; path = inl ((==_iff name dot).0 e, refl); one_part = s.1 },
        λ w. directly_in-under name p [] here ∙ elim w.path [
          | inl (d, q) ↦ ap (under []) q ∙ under-append [] w.own_name w.one_part
          | inr (d, q) ↦ absurd (d ((==_iff name dot).0 e))
        ],
      )
  | inr e ↦
      let prefix = name ++ (slash ∷ []) in
      let there = own_prefix name e in
      (
        λ h.
            let s = under-split prefix p (sym (directly_in-under name p prefix there) ∙ h) in
            record {
              own_name = drop (length prefix) p;
              path = inr (
                λ d. absurd (cc (e, (==_iff name dot).1 d)),
                s.0 ∙ append_assoc name (slash ∷ []) (drop (length prefix) p),
              );
              one_part = s.1;
            },
        λ w. directly_in-under name p prefix there ∙ elim w.path [
          | inl (d, q) ↦ absurd (cc (e, (==_iff name dot).1 d))
          | inr (d, q) ↦
              ap (under prefix) (q ∙ sym (append_assoc name (slash ∷ []) w.own_name))
              ∙ under-append prefix w.own_name w.one_part
        ],
      )
]

left_out :
    (q name : Text)
    → q ≢ name
    → directly_in name q ≡ true
    → (not (q == name) && directly_in name q) ≡ false
    → ⊥
left_out q name n d e = elim (Bool-cases (q == name)) [
  | inl same ↦ n ((==_iff q name).0 same)
  | inr other ↦ absurd (ground (arith, d, e, other))
]

abbrev pub DirEntry : Text → Dict Text Dir → Node → Type 0
DirEntry name m x =
    (p : Text) × (d : Dir) × Memᴰ (p, d) m × (p ≢ name) × IsIn name p × (x ≡ dir_node d)

abbrev pub FileEntry : Text → Dict Text File → Node → Type 0
FileEntry name m x =
    (p : Text) × (file : File) × Memᴰ (p, file) m × IsIn name p × (x ≡ file_node file)

pub subdirectories-Mem :
    (name : Text) (m : Dict Text Dir) (x : Node)
    → Memᴰ x (subdirectories name m) ↔ DirEntry name m x
unfolding subdirectories
subdirectories-Mem name [] x = (λ m. absurd (Memᴰ.not-nil m), λ w. absurd (Memᴰ.not-nil w.2))
subdirectories-Mem name ((q, g) ∷ m) x =
    let rest = subdirectories-Mem name m x in
    let later : DirEntry name m x → DirEntry name ((q, g) ∷ m) x =
      λ w. (w.0, w.1, Memᴰ.tail w.2, w.3, w.4, w.5) in
    if-cases (λ ns. Memᴰ x ns ↔ DirEntry name ((q, g) ∷ m) x)
      (not (q == name) && directly_in name q) _ _
      (λ e. (
        λ i. elim (Memᴰ.cases_cons i) [
          | inl s ↦ (
            q,
            g,
            Memᴰ.head refl,
            λ same. absurd (ground (arith, e, (==_iff q name).1 same)),
            (directly_in-IsIn name q).0 (ground (arith, e)),
            s,
          )
          | inr r ↦ later (rest.0 r)
        ],
        λ w. elim (Memᴰ.cases_cons w.2) [
          | inl s ↦ Memᴰ.head (w.5 ∙ ap (λ (y : Text × Dir). dir_node y.1) s)
          | inr r ↦ Memᴰ.tail (rest.1 (w.0, w.1, r, w.3, w.4, w.5))
        ],
      ))
      (λ e. (
        λ i. later (rest.0 i),
        λ w. elim (Memᴰ.cases_cons w.2) [
          | inl s ↦
              let key = ap (λ (y : Text × Dir). y.0) s in
              absurd (
                left_out q name (subst (λ p. p ≢ name) key w.3)
                  ((directly_in-IsIn name q).1 (subst (IsIn name) key w.4)) e)
          | inr r ↦ rest.1 (w.0, w.1, r, w.3, w.4, w.5)
        ],
      ))

pub files_in-Mem :
    (name : Text) (m : Dict Text File) (x : Node) → Memᴰ x (files_in name m) ↔ FileEntry name m x
unfolding files_in
files_in-Mem name [] x = (λ m. absurd (Memᴰ.not-nil m), λ w. absurd (Memᴰ.not-nil w.2))
files_in-Mem name ((q, g) ∷ m) x =
    let rest = files_in-Mem name m x in
    let later : FileEntry name m x → FileEntry name ((q, g) ∷ m) x =
      λ w. (w.0, w.1, Memᴰ.tail w.2, w.3, w.4) in
    if-cases (λ ns. Memᴰ x ns ↔ FileEntry name ((q, g) ∷ m) x) (directly_in name q) _ _
      (λ e. (
        λ i. elim (Memᴰ.cases_cons i) [
          | inl s ↦ (q, g, Memᴰ.head refl, (directly_in-IsIn name q).0 e, s)
          | inr r ↦ later (rest.0 r)
        ],
        λ w. elim (Memᴰ.cases_cons w.2) [
          | inl s ↦ Memᴰ.head (w.4 ∙ ap (λ (y : Text × File). file_node y.1) s)
          | inr r ↦ Memᴰ.tail (rest.1 (w.0, w.1, r, w.3, w.4))
        ],
      ))
      (λ e. (
        λ i. later (rest.0 i),
        λ w. elim (Memᴰ.cases_cons w.2) [
          | inl s ↦
              let found =
                (directly_in-IsIn name q).1
                  (subst (IsIn name) (ap (λ (y : Text × File). y.0) s) w.3) in
              absurd (cc (e, found))
          | inr r ↦ rest.1 (w.0, w.1, r, w.3, w.4)
        ],
      ))

-- A directory of the file system, other than the one that is listed, or a file.
abbrev pub IsEntry : Text → Fs → Node → Type 0
IsEntry name f x = DirEntry name f.dirs x ⊎ FileEntry name f.files x
