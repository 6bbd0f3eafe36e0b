-- ===== src/Config/FileStore.antt =====
-- pkg/config/file/store.go. A value is of any type, and `none` is nil; YAML and the validation function
-- are parameters, and the failures of the operating system are arguments.
pub mod Reloaded
use skylark.Base.{
  Bool, true, false, ℕ, Option, none, some, Result, ok, err, [], ◌∷◌, take, List_eq, ℕ_eq,
}
use skylark.Base.Dict.{Dict, lookup, insert, remove}
use skylark.Text.{Text}

pub data FileStoreError (E : Type 0) : Type 0 where
  not_found invalid_value read_failed decode_failed : FileStoreError E
  encode_failed mkdir_failed write_failed : FileStoreError E
  invalid : E → FileStoreError E

-- What becomes of writing the file: `write_fails` leaves its first bytes.
pub data Writing : Type 0 where
  writes mkdir_fails : Writing
  write_fails : ℕ → Writing

-- gopkg.in/yaml.v3 at the type of the data: what it writes, and whether it can read a text, with the
-- entries that it reads of it.
pub record Yaml (Value : Type 0) : Type 0 where
  pub encode : Dict Text Value → Option Text
  pub decode : Text → Bool × Dict Text Value

-- The values in memory, and the file.
pub record FileStore (Value : Type 0) : Type 0 where
  pub values : Dict Text Value
  pub file : Option Text

-- Unmarshal into a map puts the entries that it reads into it, and leaves the others there.
unfoldable pub merge : {Value : Type 0} → Dict Text Value → Dict Text Value → Dict Text Value
merge [] m = m
merge ((k, v) ∷ read) m = merge read (insert k v m)

module _ {Value E : Type 0} (yaml : Yaml Value)
    (validate : Option (Dict Text Value → Option E)) where
  abbrev pub Checked : Type 0
  Checked = Result (FileStoreError E) (Unit {0})

  abbrev pub Saved : Type 0
  Saved = Checked × FileStore Value

  abbrev valid : Option E → Checked
  valid none = ok tt
  valid (some e) = err (invalid e)

  -- s.validate(data), if there is such a function
  unfoldable pub run_validator : Option (Dict Text Value → Option E) → Dict Text Value → Checked
  run_validator none m = ok tt
  run_validator (some f) m = valid (f m)

  -- What follows the decoding: the values are there, whether they are valid or not.
  unfoldable pub load_decoded : Bool × Dict Text Value → FileStore Value → Saved
  unfolding merge run_validator
  load_decoded (false, read) s = (err decode_failed, record s { values = merge read s.values })
  load_decoded (true, read) s =
      (run_validator validate (merge read s.values), record s { values = merge read s.values })

  unfoldable pub load_file : Option Text → FileStore Value → Saved
  unfolding load_decoded
  load_file none s = (ok tt, record s { values = [] })
  load_file (some text) s = load_decoded (yaml.decode text) s

  -- Load
  unfoldable pub load_values : FileStore Value → Saved
  unfolding load_file
  load_values s = load_file s.file s

  unfoldable pub write_file : Writing → Option Text → FileStore Value → Saved
  write_file outcome none s = (err encode_failed, s)
  write_file writes (some text) s = (ok tt, record s { file = some text })
  write_file mkdir_fails (some text) s = (err mkdir_failed, s)
  write_file (write_fails n) (some text) s =
      (err write_failed, record s { file = some (take n text) })

  unfoldable pub save_checked : Writing → Checked → FileStore Value → Saved
  unfolding write_file
  save_checked outcome (err e) s = (err e, s)
  save_checked outcome (ok u) s = write_file outcome (yaml.encode s.values) s

  -- Save
  unfoldable pub save_values : Writing → FileStore Value → Saved
  unfolding save_checked run_validator
  save_values outcome s = save_checked outcome (run_validator validate s.values) s

  unfoldable reset_values : Writing → FileStore Value → Saved
  unfolding save_values
  reset_values outcome s = save_values outcome (record s { values = [] })

  unfoldable get_value : Text → FileStore Value → Result (FileStoreError E) Value
  get_value key s = elim (lookup key s.values) [ none ↦ err not_found | some v ↦ ok v ]

  -- Set, after the value is put in: it is taken out again if the values are not valid with it.
  unfoldable pub set_checked : Writing → Text → Checked → FileStore Value → Saved
  unfolding save_values
  set_checked outcome key (err e) s = (err e, record s { values = remove key s.values })
  set_checked outcome key (ok u) s = save_values outcome s

  unfoldable pub set_value : Writing → Text → Option Value → FileStore Value → Saved
  unfolding set_checked run_validator
  set_value outcome key none s = (err invalid_value, s)
  set_value outcome key (some v) s =
      set_checked outcome key (run_validator validate (insert key v s.values))
        (record s { values = insert key v s.values })

  unfoldable delete_value : Writing → Text → Option Value → FileStore Value → Saved
  unfolding save_values
  delete_value outcome key none s = (err not_found, s)
  delete_value outcome key (some v) s =
      save_values outcome (record s { values = remove key s.values })

  -- Delete
  unfoldable delete_key : Writing → Text → FileStore Value → Saved
  unfolding delete_value
  delete_key outcome key s = delete_value outcome key (lookup key s.values) s

  unfoldable replace_values : Writing → Dict Text Value → Checked → FileStore Value → Saved
  unfolding save_values merge
  replace_values outcome values (err e) s = (err e, s)
  replace_values outcome values (ok u) s =
      save_values outcome (record s { values = merge values [] })

  -- SetAll
  unfoldable set_values : Writing → Option (Dict Text Value) → FileStore Value → Saved
  unfolding replace_values run_validator
  set_values outcome none s = (err invalid_value, s)
  set_values outcome (some values) s =
      replace_values outcome values (run_validator validate values) s
