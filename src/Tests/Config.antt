-- ===== src/Tests/Config.antt =====
-- Runs of pkg/config.
use skylark.Base.{
  Bool, true, ◌≡◌, ℕ, none, some, if◌then◌else◌, ◌==◌, List_eq, ℕ_eq, ltb, length, ◌∷◌, [], Option,
  subst, refl, err,
}
use skylark.Base.Dict.{lookup, Dict, insert}
use skylark.Text.{Text, bytes}
use skylark.Config.Store.{Data, ValidateFunc}
use skylark.Config.FileStore.{write_fails, writes, Yaml, FileStore, set_value, load_values}
use skylark.Config.FileStore.Reloaded.{IsDistinct, SameValues, or_else, load_values-set_value}
use skylark.Config.Manager.{
  write_failed, find_setting, Settings, no_settings, setting, leaf, Config, set_setting,
  find_setting, save_config,
}
use mathlib.Core.Option.{some-injective}
use mathlib.Core.Bool.{Bool, true}

-- At most one value is valid.
abbrev one_value : ValidateFunc ℕ Text
one_value m = if ltb 1 (length m) then some (bytes "too many") else none

abbrev settings : Data ℕ Text
settings = (bytes "a", 1) ∷ []

-- Maps of at most one entry can be written, as the value before the key.
abbrev encode_one : Dict Text ℕ → Option Text
encode_one [] = some []
encode_one ((k, v) ∷ []) = some (v ∷ k)
encode_one (e ∷ f ∷ m) = none

abbrev decode_one : Text → Bool × Dict Text ℕ
decode_one [] = (true, [])
decode_one (v ∷ k) = (true, (k, v) ∷ [])

abbrev yaml_one : Yaml ℕ
yaml_one = record { encode = encode_one; decode = decode_one }

decode-encode :
    (m : Dict Text ℕ) (t : Text)
    → encode_one m ≡ some t
    → (n : Dict Text ℕ) × (decode_one t ≡ (true, n)) × IsDistinct n × SameValues n m
unfolding lookup
decode-encode [] t h =
    ([], subst (λ u. decode_one u ≡ (true, [])) (some-injective [] t h) refl, tt, λ k. refl)
decode-encode ((k, v) ∷ []) t h = (
  (k, v) ∷ [],
  subst (λ u. decode_one u ≡ (true, (k, v) ∷ [])) (some-injective (v ∷ k) t h) refl,
  (refl, tt),
  λ j. refl,
)
decode-encode (e ∷ f ∷ m) t h = absurd (cc h)

abbrev empty_store : FileStore ℕ
empty_store = record { values = []; file = none }

-- The store that loads has a value that the file does not have.
abbrev other_store : FileStore ℕ
other_store = record { values = (bytes "b", 7) ∷ []; file = none }

load_values-set_value_example :
    lookup
      (bytes "b")
      (load_values yaml_one (some one_value) (record other_store {
        file = (set_value yaml_one (some one_value) writes (bytes "a") (some 1) empty_store).1.file;
      })).1.values
    ≡ or_else
        (if bytes "a" == bytes "b" then some 1 else lookup (bytes "b") empty_store.values)
        (lookup (bytes "b") other_store.values)
unfolding set_value insert
load_values-set_value_example =
    load_values-set_value yaml_one (some one_value) writes (bytes "a") 1 empty_store other_store
      (bytes "b") (record { reads = decode-encode }) refl

-- Set of a nested key puts its last part at the top: FromMap is given the inner map.
abbrev flat : Config Settings
flat = record { version = []; models = []; tools = []; config_dir = []; rest = no_settings }

nested_set :
    (set_setting
      (λ c. c.rest)
      (λ m c. (true, record c { rest = m }))
      (bytes "log.level")
      (leaf (bytes "debug"))
      flat).1.rest
    ≡ setting (bytes "level") (leaf (bytes "debug")) no_settings
unfolding set_setting find_setting
nested_set = refl

-- A file that cannot be written whole is cut off.
saved_in_part :
    save_config
      (λ (c : Config Settings). some (bytes "version: 1"))
      (write_fails 7)
      flat
      (some (bytes "old"))
    ≡ (err write_failed, some (bytes "version"))
unfolding save_config
saved_in_part = refl
