-- ===== src/Config/Manager.antt =====
-- pkg/config/manager.go and pkg/config/config.go. YAML is a parameter, as what it makes of a
-- configuration and of a map.
use skylark.Base.{
  take, Bool, true, false, ℕ, Option, none, some, Result, ok, err, List, [], ◌∷◌, ◌++◌, ◌>>◌,
  if◌then◌else◌, ◌==◌, List_eq, ℕ_eq,
}
use skylark.Config.FileStore.{Writing, writes, mkdir_fails, write_fails}
use skylark.Base.Dict.{Dict, lookup}
use skylark.Text.{Text, is_nil}
use skylark.Text.Split.{split_on, join_on}

-- The values of a configuration's map.
mutual
  pub data Setting : Type 0 where
    leaf : Text → Setting
    nested : Settings → Setting

  pub data Settings : Type 0 where
    no_settings : Settings
    setting : Text → Setting → Settings → Settings

pub data ConfigError : Type 0 where
  read_failed parse_failed marshal_failed mkdir_failed write_failed update_failed : ConfigError
  not_found : Text → ConfigError
  version_required : ConfigError
  api_key_required : (provider model : Text) → ConfigError

-- m[key], m[key] = v and delete(m, key)
unfoldable pub find_setting : Text → Settings → Option Setting
find_setting key no_settings = none
find_setting key (setting k v m) = if k == key then some v else find_setting key m

unfoldable put_setting : Text → Setting → Settings → Settings
put_setting key v no_settings = setting key v no_settings
put_setting key v (setting k w m) =
    let rest = put_setting key v m in if k == key then setting key v m else setting k w rest

unfoldable drop_setting : Text → Settings → Settings
drop_setting key no_settings = no_settings
drop_setting key (setting k w m) =
    let rest = drop_setting key m in if k == key then rest else setting k w rest

-- A map, if it is one.
abbrev as_nested : Option Setting → Option Settings
as_nested (some (nested m)) = some m
as_nested o = none

abbrev nested_or_new : Option Settings → Settings
nested_or_new none = no_settings
nested_or_new (some m) = m

-- The map that a Set comes to at the end of its loop; where there is none, a new one.
unfoldable parent_or_new : List Text → Settings → Settings
parent_or_new [] m = m
parent_or_new (part ∷ parts) m =
    parent_or_new parts (nested_or_new (as_nested (find_setting part m)))

-- The map that a Get or a Delete comes to, or the first parts of the key, where there is none.
unfoldable pub parent : List Text → List Text → Settings → Result (List Text) Settings
parent walked [] m = ok m
parent walked (part ∷ parts) m = elim (as_nested (find_setting part m)) [
  | none ↦ err (walked ++ (part ∷ []))
  | some next ↦ parent (walked ++ (part ∷ [])) parts next
]

-- The parts of a key but the last one, and the last one.
unfoldable split_last : List Text → List Text × Text
split_last [] = ([], [])
split_last (part ∷ []) = ([], part)
split_last (part ∷ next ∷ parts) = let rest = split_last (next ∷ parts) in (part ∷ rest.0, rest.1)

abbrev pub dot : ℕ
dot = 46

abbrev parts_of : Text → List Text × Text
parts_of key = split_last (split_on dot key)

pub record ModelConfig : Type 0 where
  pub api_key : Text
  pub max_tokens : ℕ

-- A configuration, up to the parts that only other packages read.
pub record Config (Rest : Type 0) : Type 0 where
  pub version : Text
  pub models : Dict Text (Dict Text ModelConfig)
  pub tools : Dict Text (Dict Text Text)
  pub config_dir : Text
  pub rest : Rest

abbrev of_provider : Text → Option (Dict Text ModelConfig) → Option ModelConfig
of_provider model none = none
of_provider model (some models) = lookup model models

-- the inner loop of Validate
unfoldable check_models : Text → Dict Text ModelConfig → Result ConfigError (Unit {0})
check_models provider [] = ok tt
check_models provider ((model, c) ∷ models) =
    let rest = check_models provider models in
    if is_nil c.api_key then err (api_key_required provider model) else rest

unfoldable check_providers : Dict Text (Dict Text ModelConfig) → Result ConfigError (Unit {0})
unfolding check_models
check_providers [] = ok tt
check_providers ((provider, models) ∷ providers) =
    let rest = check_providers providers in check_models provider models >> rest

abbrev value_of : Text → Option Setting → Result ConfigError Setting
value_of key none = err (not_found key)
value_of key (some v) = ok v

unfoldable get_in : Text → Text → Result (List Text) Settings → Result ConfigError Setting
get_in key last (err walked) = err (not_found (join_on dot walked))
get_in key last (ok m) = value_of key (find_setting last m)

abbrev saved : Writing → Option Text → Option Text → Result ConfigError (Unit {0}) × Option Text
saved outcome none file = (err marshal_failed, file)
saved writes (some text) file = (ok tt, some text)
saved mkdir_fails (some text) file = (err mkdir_failed, file)
saved (write_fails n) (some text) file = (err write_failed, some (take n text))

module _ {Rest : Type 0} where
  -- Load: the directory is set, and stands in no file.
  unfoldable load_config :
      (Text → Option (Config Rest))
      → Text
      → Option Text
      → Config Rest
      → Result ConfigError (Unit {0}) × Config Rest
  load_config yaml dir none c = (err read_failed, c)
  load_config yaml dir (some text) c = elim (yaml text) [
    | none ↦ (err parse_failed, c)
    | some d ↦ (ok tt, record d { config_dir = dir })
  ]

  -- Save, with the file before it and after it
  unfoldable pub save_config :
      (Config Rest → Option Text)
      → Writing
      → Config Rest
      → Option Text
      → Result ConfigError (Unit {0}) × Option Text
  save_config yaml outcome c file = saved outcome (yaml c) file

  -- Reset, to the zero value, whose other parts are `rest`
  unfoldable reset_config : Rest → Config Rest
  reset_config rest = record { version = []; models = []; tools = []; config_dir = []; rest = rest }

  unfoldable get_model_config : Text → Text → Config Rest → Option ModelConfig
  get_model_config provider model c = of_provider model (lookup provider c.models)

  unfoldable get_tool_env : Text → Config Rest → Option (Dict Text Text)
  get_tool_env name c = lookup name c.tools

  unfoldable validate_config : Config Rest → Result ConfigError (Unit {0})
  unfolding check_providers
  validate_config c = if is_nil c.version then err version_required else check_providers c.models

  module _ (as_map : Config Rest → Settings)
      (from_map : Settings → Config Rest → Bool × Config Rest) where
    abbrev updated : Bool × Config Rest → Result ConfigError (Unit {0}) × Config Rest
    updated (false, d) = (err update_failed, d)
    updated (true, d) = (ok tt, d)

    unfoldable get_setting : Text → Config Rest → Result ConfigError Setting
    unfolding get_in parent split_last
    get_setting key c = get_in key (parts_of key).1 (parent [] (parts_of key).0 (as_map c))

    -- Set passes the map that holds the last part to FromMap, not the whole one.
    unfoldable pub set_setting :
        Text → Setting → Config Rest → Result ConfigError (Unit {0}) × Config Rest
    unfolding parent_or_new put_setting split_last
    set_setting key v c =
        updated
          (from_map (put_setting (parts_of key).1 v (parent_or_new (parts_of key).0 (as_map c))) c)

    unfoldable delete_in :
        Text
        → Result (List Text) Settings
        → Config Rest
        → Result ConfigError (Unit {0}) × Config Rest
    unfolding drop_setting
    delete_in last (err walked) c = (err (not_found (join_on dot walked)), c)
    delete_in last (ok m) c = updated (from_map (drop_setting last m) c)

    unfoldable delete_setting : Text → Config Rest → Result ConfigError (Unit {0}) × Config Rest
    unfolding delete_in parent split_last
    delete_setting key c = delete_in (parts_of key).1 (parent [] (parts_of key).0 (as_map c)) c

    unfoldable set_settings : Settings → Config Rest → Result ConfigError (Unit {0}) × Config Rest
    set_settings m c = updated (from_map m c)
