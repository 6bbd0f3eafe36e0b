-- ===== src/Base/Dict.antt =====
-- A Go map as an association list with one entry for a key. Clients have the laws of `lookup`.
use mathlib.Core.Path.{◌≡◌, refl}
use mathlib.Core.Bool.{Bool}
use mathlib.Core.Option.{Option, none, some}
use mathlib.Core.List.{List, [], ◌∷◌}
use native.Mathlib.Omega.{arith}
use skylark.Base.Tests.{Eq, ◌==◌, ==_iff, ==_refl, if◌then◌else◌}

abbrev pub Dict {ℓ κ} : Type ℓ → Type κ → Type (ℓ ⊔ κ)
Dict K V = List (K × V)

module _ {ℓ κ} {K : Type ℓ} ⦃e : Eq K⦄ {V : Type κ} where
  -- v, ok := m[k]
  unfoldable pub lookup : K → Dict K V → Option V
  lookup k [] = none
  lookup k ((key, v) ∷ rest) = if key == k then some v else lookup k rest

  -- m[k] = v
  unfoldable pub insert : K → V → Dict K V → Dict K V
  insert k v [] = (k, v) ∷ []
  insert k v ((key, old) ∷ rest) =
      if key == k then (key, v) ∷ rest else (key, old) ∷ insert k v rest

  -- delete(m, k)
  unfoldable pub remove : K → Dict K V → Dict K V
  remove k [] = []
  remove k ((j, w) ∷ m) = if j == k then remove k m else (j, w) ∷ remove k m

  -- for k, v := range m { if test(k) { delete(m, k) } }
  unfoldable pub remove_if : (K → Bool) → Dict K V → Dict K V
  remove_if p [] = []
  remove_if p ((j, w) ∷ m) = if p j then remove_if p m else (j, w) ∷ remove_if p m

  pub lookup-insert :
      (k j : K) (v : V) (m : Dict K V)
      → lookup j (insert k v m) ≡ (if k == j then some v else lookup j m)
  unfolding lookup insert
  lookup-insert k j v [] = refl
  lookup-insert k j v ((key, old) ∷ rest) =
      ground (arith, lookup-insert k j v rest, ==_iff key j, ==_iff key k, ==_iff k j)

  pub lookup-remove :
      (k j : K) (m : Dict K V) → lookup j (remove k m) ≡ (if k == j then none else lookup j m)
  unfolding lookup remove
  lookup-remove k j [] = ground arith
  lookup-remove k j ((key, old) ∷ rest) =
      ground (arith, lookup-remove k j rest, ==_iff key j, ==_iff key k, ==_iff k j)

  pub lookup-remove_if :
      (p : K → Bool) (j : K) (m : Dict K V)
      → lookup j (remove_if p m) ≡ (if p j then none else lookup j m)
  unfolding lookup remove_if
  lookup-remove_if p j [] = ground arith
  lookup-remove_if p j ((i, w) ∷ m) = ground (arith, ==_iff i j, lookup-remove_if p j m)

pub ruleset dict_laws = (lookup-insert, lookup-remove, lookup-remove_if, ==_refl)
