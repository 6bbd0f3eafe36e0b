-- ===== src/Tool.antt =====
-- pkg/tool/tool.go: a tool, its schema, and what input it takes. The values of encoding/json are a
-- data type; its parser is an argument.
pub mod Validate
pub mod Run
pub mod Manager
use skylark.Base.{
  ℕ, Bool, Option, none, some, Result, ok, err, List, [], ◌∷◌, if◌then◌else◌, ◌==◌, List_eq, ℕ_eq,
  ◌>>◌, true, false,
}
use skylark.Base.Dict.{Dict, lookup, insert}
use skylark.Text.{Text, bytes}

mutual
  pub data Json : Type 0 where
    null : Json
    boolean : Bool → Json
    number string : Text → Json
    array : Items → Json
    object : Fields → Json

  pub data Items : Type 0 where
    no_items : Items
    item : Json → Items → Items

  pub data Fields : Type 0 where
    no_fields : Fields
    field : Text → Json → Fields → Fields

abbrev items_of : Items → List Json
items_of no_items = []
items_of (item j items) = j ∷ items_of items

pub record EnvVar : Type 0 where
  pub kind : Text
  pub description : Text
  pub default_value : Option Json

pub record Schema : Type 0 where
  pub description : Text
  pub parameters : Dict Text Json
  pub env : Dict Text EnvVar

pub record Tool : Type 0 where
  pub name : Text
  pub path : Text
  pub last_built : Option ℕ
  pub schema : Schema

pub data InputError : Type 0 where
  invalid_json root_not_object no_properties : InputError
  invalid_field_type : Json → InputError
  missing_field : Text → InputError

-- The members of an object put into a map, where a later one of a name takes the place of an earlier one.
unfoldable pub members_into : Fields → Dict Text Json → Dict Text Json
members_into no_fields m = m
members_into (field name j members) m = members_into members (insert name j m)

-- Unmarshal into a map that is nil: of an object its members, of `null` none, and else an error.
unfoldable pub as_map : Option Json → Option (Dict Text Json)
unfolding members_into
as_map (some (object members)) = some (members_into members [])
as_map (some null) = some []
as_map parsed = none

abbrev pub is_object : Option Json → Bool
is_object (some (object _)) = true
is_object o = false

-- params["type"] == "object"
abbrev pub is_object_type : Option Json → Bool
is_object_type (some (string s)) = s == bytes "object"
is_object_type o = false

-- The fields that a schema requires, if they are given as an array.
abbrev pub required_of : Option Json → List Json
required_of (some (array items)) = items_of items
required_of o = []

unfoldable pub check_present : Text → Option Json → Result InputError (Unit {0})
check_present name none = err (missing_field name)
check_present name (some value) = ok tt

unfoldable pub check_field : Json → Dict Text Json → Result InputError (Unit {0})
unfolding check_present
check_field (string name) input = check_present name (lookup name input)
check_field j input = err (invalid_field_type j)

-- the loop over the required fields
unfoldable pub check_required : List Json → Dict Text Json → Result InputError (Unit {0})
unfolding check_field
check_required [] input = ok tt
check_required (j ∷ required) input =
    let rest = check_required required input in check_field j input >> rest

unfoldable pub check_schema : Dict Text Json → Dict Text Json → Result InputError (Unit {0})
unfolding check_required
check_schema params input =
    if is_object_type (lookup (bytes "type") params)
    then (if is_object (lookup (bytes "properties") params)
        then check_required (required_of (lookup (bytes "required") params)) input
        else err no_properties)
    else err root_not_object

unfoldable pub check_parsed :
    Dict Text Json → Option (Dict Text Json) → Result InputError (Unit {0})
unfolding check_schema
check_parsed params none = err invalid_json
check_parsed params (some input) = check_schema params input

-- ValidateInput, where `parse` is the parser of encoding/json.
unfoldable pub validate_input : (Text → Option Json) → Schema → Text → Result InputError (Unit {0})
unfolding check_parsed as_map
validate_input parse schema input = check_parsed schema.parameters (as_map (parse input))
