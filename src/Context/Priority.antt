-- ===== src/Context/Priority.antt =====
-- `sortReferencesByPriority` of pkg/context/context.go: the exchange sort, and that it sorts.
use mathlib.Core.List.{Perm}
use mathlib.Core.Path.{ap₂}
use mathlib.Core.List.Perm
use skylark.Base.{
  ℕ, zero, suc, ◌≤◌, ◌≡◌, refl, ap, ◌∙◌, Bool, true, false, not, ◌&&◌, ◌||◌, List, [], ◌∷◌, all,
  length, arith, Bool-cases, ltb, ◌==◌, ℕ_eq, if◌then◌else◌, inl, inr,
}
use skylark.Context.Section.{Reference}

-- `refs[i]` and `refs[j]` are exchanged
unfoldable pub after : Reference → Reference → Bool
after x y = ltb y.level x.level || (x.level == y.level && ltb y.start_line x.start_line)

-- the inner loop: what stands at `i` when it ends, and what stands behind it
unfoldable exchange : Reference → List Reference → Reference × List Reference
exchange x [] = (x, [])
exchange x (y ∷ ys) =
    let (first, rest) = exchange (if after x y then y else x) ys in
    (first, (if after x y then x else y) ∷ rest)

-- the outer loop, on the references from `i` on
unfoldable sort_from : ℕ → List Reference → List Reference
unfolding exchange
sort_from zero refs = refs
sort_from (suc n) [] = []
sort_from (suc n) (x ∷ refs) = let (first, rest) = exchange x refs in first ∷ sort_from n rest

unfoldable pub sort_references_by_priority : List Reference → List Reference
unfolding sort_from
sort_references_by_priority refs = sort_from (length refs) refs

exchange-perm :
    (x : Reference) (ys : List Reference) → Perm ((exchange x ys).0 ∷ (exchange x ys).1) (x ∷ ys)
unfolding exchange
exchange-perm x [] = Perm.refl (x ∷ [])
exchange-perm x (y ∷ ys) = elim (Bool-cases (after x y)) [
  | inl e ↦ rw e (
      Perm.trans (Perm.swap x (exchange y ys).0 (exchange y ys).1)
        (Perm.cons x (exchange-perm y ys)))
  | inr e ↦ rw e (
      Perm.trans (Perm.swap y (exchange x ys).0 (exchange x ys).1)
        (Perm.trans (Perm.cons y (exchange-perm x ys)) (Perm.swap x y ys)))
]

sort_from-perm : (n : ℕ) (refs : List Reference) → Perm (sort_from n refs) refs
unfolding sort_from
sort_from-perm zero refs = Perm.refl refs
sort_from-perm (suc n) [] = Perm.refl []
sort_from-perm (suc n) (x ∷ refs) =
    Perm.trans (Perm.cons (exchange x refs).0 (sort_from-perm n (exchange x refs).1))
      (exchange-perm x refs)

-- A reference comes before all of some others.
abbrev first_of_all : Reference → List Reference → Bool
first_of_all x = all (λ y. not (after x y))

abbrev pub Sorted : List Reference → Type 0
Sorted [] = Unit {0}
Sorted (x ∷ refs) = (first_of_all x refs ≡ true) × Sorted refs

after_irrefl : (x : Reference) → after x x ≡ false
unfolding after
after_irrefl x = ground arith

after_asymm : (x y : Reference) → after x y ≡ true → after y x ≡ false
unfolding after
after_asymm x y h = ground arith

after_trans : (x y z : Reference) → after x y ≡ false → after y z ≡ false → after x z ≡ false
unfolding after
after_trans x y z h k = ground arith

exchange-le : (x : Reference) (ys : List Reference) → after (exchange x ys).0 x ≡ false
unfolding exchange
exchange-le x [] = after_irrefl x
exchange-le x (y ∷ ys) = elim (Bool-cases (after x y)) [
  | inl e ↦ rw e (after_trans (exchange y ys).0 y x (exchange-le y ys) (after_asymm x y e))
  | inr e ↦ rw e (exchange-le x ys)
]

-- What comes out first is not after what was put back.
exchange-le_other :
    (x y : Reference) (ys : List Reference)
    → after (exchange (if after x y then y else x) ys).0 (if after x y then x else y) ≡ false
exchange-le_other x y ys = elim (Bool-cases (after x y)) [
  | inl e ↦ rw e (after_trans (exchange y ys).0 y x (exchange-le y ys) (after_asymm x y e))
  | inr e ↦ rw e (after_trans (exchange x ys).0 x y (exchange-le x ys) e)
]

exchange-first :
    (ys : List Reference) (x : Reference) → first_of_all (exchange x ys).0 (exchange x ys).1 ≡ true
unfolding exchange
exchange-first [] x = refl
exchange-first (y ∷ ys) x =
    ap₂ (λ a b. not a && b) (exchange-le_other x y ys)
      (exchange-first ys (if after x y then y else x))

all-exchange :
    (p : Reference → Bool) (x : Reference) (ys : List Reference)
    → (p (exchange x ys).0 && all p (exchange x ys).1) ≡ (p x && all p ys)
unfolding exchange
all-exchange p x [] = refl
all-exchange p x (y ∷ ys) = elim (Bool-cases (after x y)) [
  | inl e ↦ rw e (ground (arith, all-exchange p y ys))
  | inr e ↦ rw e (ground (arith, all-exchange p x ys))
]

all-sort_from :
    (p : Reference → Bool) (n : ℕ) (refs : List Reference) → all p (sort_from n refs) ≡ all p refs
unfolding sort_from
all-sort_from p zero refs = refl
all-sort_from p (suc n) [] = refl
all-sort_from p (suc n) (x ∷ refs) =
    ap (λ b. p (exchange x refs).0 && b) (all-sort_from p n (exchange x refs).1)
    ∙ all-exchange p x refs

length-exchange : (ys : List Reference) (x : Reference) → length (exchange x ys).1 ≡ length ys
unfolding exchange
length-exchange [] x = refl
length-exchange (y ∷ ys) x = ap suc (length-exchange ys (if after x y then y else x))

sort_from-Sorted : (n : ℕ) (refs : List Reference) → length refs ≤ n → Sorted (sort_from n refs)
unfolding sort_from
sort_from-Sorted zero [] h = tt
sort_from-Sorted zero (x ∷ refs) h = absurd (omega arith)
sort_from-Sorted (suc n) [] h = tt
sort_from-Sorted (suc n) (x ∷ refs) h = (
  all-sort_from _ n (exchange x refs).1 ∙ exchange-first refs x,
  sort_from-Sorted n (exchange x refs).1 (omega (arith, length-exchange refs x)),
)

-- The references are put in order of level, and of position within a level, and none is lost or
-- made up.
pub sort_references_by_priority-Sorted :
    (refs : List Reference)
    → Sorted (sort_references_by_priority refs) × Perm (sort_references_by_priority refs) refs
unfolding sort_references_by_priority
sort_references_by_priority-Sorted refs =
    (sort_from-Sorted (length refs) refs (omega arith), sort_from-perm (length refs) refs)

pub all-sort_references_by_priority :
    (p : Reference → Bool) (refs : List Reference)
    → all p (sort_references_by_priority refs) ≡ all p refs
unfolding sort_references_by_priority
all-sort_references_by_priority p refs = all-sort_from p (length refs) refs
