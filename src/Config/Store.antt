-- ===== src/Config/Store.antt =====
-- pkg/config/memory/store.go. A value is of any type, and `none` is nil; the validation function is a
-- parameter, which may be missing.
pub mod Laws
use skylark.Base.Dict.{Dict, lookup, insert, remove}
use skylark.Base.{[], ◌∷◌}
use skylark.Text.{Text}
use Prim.Native.String.{[]}
use skylark.Base.{Option, Result, ok, none, [], some, err, ℕ_eq, List_eq}

pub data StoreError (E : Type 0) : Type 0 where
  not_found : StoreError E
  invalid_value : StoreError E
  invalid : E → StoreError E

module _ (Value E : Type 0) where
  abbrev pub Data : Type 0
  Data = Dict Text Value

  abbrev pub ValidateFunc : Type 0
  ValidateFunc = Data → Option E

  abbrev pub Done : Type 0
  Done = Result (StoreError E) (Unit {0})

  -- s.validate(data), if there is such a function
  unfoldable pub run_validate : Option ValidateFunc → Data → Done
  run_validate none data_ = ok tt
  run_validate (some f) data_ = elim (f data_) [ none ↦ ok tt | some e ↦ err (invalid e) ]

  unfoldable pub load : Option ValidateFunc → Data → Done
  unfolding run_validate
  load validate data_ = run_validate validate data_

  unfoldable pub reset : Data → Done × Data
  reset data_ = (ok tt, [])

  unfoldable pub get : Text → Data → Result (StoreError E) Value
  get key data_ = elim (lookup key data_) [ none ↦ err not_found | some v ↦ ok v ]

  -- The key is deleted again if the data are not valid with it.
  unfoldable pub roll_back : Text → Done → Data → Done × Data
  roll_back key (ok u) data_ = (ok tt, data_)
  roll_back key (err e) data_ = (err e, remove key data_)

  unfoldable pub set : Option ValidateFunc → Text → Option Value → Data → Done × Data
  unfolding roll_back run_validate
  set validate key none data_ = (err invalid_value, data_)
  set validate key (some v) data_ =
      roll_back key (run_validate validate (insert key v data_)) (insert key v data_)

  unfoldable pub delete_found : Text → Data → Option Value → Done × Data
  delete_found key data_ none = (err not_found, data_)
  delete_found key data_ (some v) = (ok tt, remove key data_)

  unfoldable pub delete : Text → Data → Done × Data
  unfolding delete_found
  delete key data_ = delete_found key data_ (lookup key data_)

  -- for k, v := range values { m[k] = v }
  unfoldable pub copy : Data → Data → Data
  copy [] m = m
  copy ((k, v) ∷ values) m = copy values (insert k v m)

  unfoldable get_all : Data → Data
  unfolding copy
  get_all data_ = copy data_ []

  unfoldable replace : Data → Done → Data → Done × Data
  unfolding copy
  replace values (ok u) data_ = (ok tt, copy values [])
  replace values (err e) data_ = (err e, data_)

  unfoldable set_all : Option ValidateFunc → Option Data → Data → Done × Data
  unfolding replace run_validate
  set_all validate none data_ = (err invalid_value, data_)
  set_all validate (some values) data_ = replace values (run_validate validate values) data_
