-- ===== src/Config/Store/Laws.antt =====
-- What the operations of pkg/config/memory/store.go do to each other's keys.
use skylark.Base.Dict.{lookup, insert, lookup-insert, lookup-remove}
use skylark.Text.{Text}
use skylark.Base.{
  refl, ◌==◌, if◌then◌else◌, ok, err, List_eq, ℕ_eq, none, some, is_ok, true, ◌∙◌, arith, inl, inr,
  Bool, false, Bool-cases, ap, sym, ==_iff,
}
use skylark.Base.{refl, Option, some, ◌≡◌, if◌then◌else◌, ◌==◌}
use skylark.Config.Store.{
  ValidateFunc, Data, set, delete, Done, roll_back, run_validate, delete_found,
}

module _ (Value E : Type 0) (validate : Option (ValidateFunc Value E)) (key : Text) (v : Value)
    (m : Data Value E) where
  -- Setting a value either fails, and then the key has no value, whatever it had before, or it
  -- succeeds, and then the key has the new value; the other keys keep their values in either case.
  pub lookup-set :
      (k : Text)
      → lookup k (set Value E validate key (some v) m).1 ≡ (
          if key == k
          then (if is_ok (set Value E validate key (some v) m).0 then some v else none)
          else lookup k m)
  unfolding set
  lookup-set k = after (run_validate Value E validate (insert key v m))
    where
      after :
          (r : Done Value E)
          → lookup k (roll_back Value E key r (insert key v m)).1 ≡ (
              if key == k
              then (if is_ok (roll_back Value E key r (insert key v m)).0 then some v else none)
              else lookup k m)
      after (ok u) = lookup-insert key k v m
      after (err e) = lookup-remove key k (insert key v m) ∙ ground (arith, lookup-insert key k v m)

abbrev is_some : {A : Type 0} → Option A → Bool
is_some none = false
is_some (some a) = true

module _ (Value E : Type 0) (key : Text) (m : Data Value E) where
  -- Deleting succeeds just if the key has a value; after it the key has none, and the other keys keep
  -- theirs, in either case.
  lookup-delete :
      (k : Text)
      → (is_ok (delete Value E key m).0 ≡ is_some (lookup key m))
        × (lookup k (delete Value E key m).1 ≡ (if key == k then none else lookup k m))
  unfolding delete
  lookup-delete k = after (lookup key m) refl
    where
      after :
          (found : Option Value)
          → lookup key m ≡ found
          → (is_ok (delete_found Value E key m found).0 ≡ is_some found)
            × (lookup k (delete_found Value E key m found).1
                ≡ (if key == k then none else lookup k m))
      after none e = (
        refl,
        elim (Bool-cases (key == k)) [
          | inl same ↦ rw same (ap (λ j. lookup j m) (sym ((==_iff key k).0 same)) ∙ e)
          | inr other ↦ rw other refl
        ],
      )
      after (some v) e = (refl, lookup-remove key k m)
