-- ===== src/Tests/Assistant.antt =====
-- Runs of pkg/assistant/assistant.go and pkg/tool/tool.go.
use mathlib.Core.List.Memᴰ
use mathlib.Core.List.{Memᴰ}
use skylark.Base.{
  refl, ok, err, [], ◌≡◌, ◌↔◌, ◌∷◌, ◌++◌, zero, suc, Bool, true, false, Option, none, some, List,
  is_ok, List_eq, ℕ_eq,
}
use skylark.Base.Int.{pos}
use skylark.Base.Dict.{Dict, lookup, insert}
use skylark.Text.{Text, bytes, newline}
use skylark.Text.Trim.{trim_space, trim_left, trim_right, width, is_blank}
use skylark.Provider.Interface.{Response, FunctionCall}
use skylark.Provider.Registry.{Registry, Factory, create_for_model, parse_model_spec}
use skylark.Sandbox.{Sandbox, execute, runs, extend_env}
use skylark.Tool.{
  members_into, EnvVar, Json, string, object, array, item, no_items, field, no_fields, null, Schema,
  validate_input, missing_field,
}
use skylark.Tool.Validate.{Accepts, validate_input-Accepts}
use skylark.Tool.Run.{ToolProcess, stuck, run_tool, run_env, tool_env}
use skylark.Tool.Manager.{World, load_tool}
use skylark.Assistant.{Assistant, FrontMatter, load_assistant, parse_tool_usage}
use skylark.Assistant.Process.{Surroundings, Answers, Session, process}
use skylark.Assistant.Process.Checked.{AllChecked, process-AllChecked}
use skylark.Assistant.Process.Answered.{IsAnswer, process-IsAnswer}

abbrev units : EnvVar
units = record { kind = []; description = []; default_value = some (string (bytes "C")) }

-- The tool wants a city, and reads a variable.
abbrev weather : Schema
weather = record {
  description = [];
  parameters =
      (bytes "type", string (bytes "object"))
      ∷ (bytes "properties", object (field (bytes "city") null no_fields))
      ∷ (bytes "required", array (item (string (bytes "city")) no_items))
      ∷ [];
  env = (bytes "UNITS", units) ∷ [];
}

-- A text is an object whose one field it names, and all texts are JSON.
abbrev one_field : Text → Option Json
one_field t = some (object (field t null no_fields))

field_missing : validate_input one_field weather (bytes "town") ≡ err (missing_field (bytes "city"))
unfolding validate_input lookup members_into insert
field_missing = refl

-- `null` is taken for an object where no field is required.
null_accepted :
    is_ok (
      validate_input
        (λ t. some null)
        (record {
          description = [];
          parameters =
              (bytes "type", string (bytes "object")) ∷ (bytes "properties", object no_fields) ∷ [];
          env = [];
        })
        (bytes "null"))
    ≡ true
unfolding validate_input lookup
null_accepted = refl

validate_input-Accepts_example :
    (is_ok (validate_input one_field weather (bytes "city")) ≡ true)
    ↔ Accepts one_field weather (bytes "city")
validate_input-Accepts_example = validate_input-Accepts one_field weather (bytes "city")

abbrev string_text : Json → Text
string_text (string s) = s
string_text j = []

abbrev environment : Dict Text Text
environment =
    (bytes "PATH", bytes "/bin") ∷ (bytes "HOME", bytes "/root") ∷ (bytes "SECRET", bytes "x") ∷ []

abbrev sandbox : List Text → Sandbox
sandbox whitelist = record {
  max_cpu_time = 30;
  env_whitelist = whitelist;
  tool_version = [];
  cache_enabled = false;
}

-- Without a whitelist a tool sees PATH and the default of its variable.
default_units :
    (run_env string_text weather [] environment (sandbox [])).0
    ≡ bytes "PATH=/bin" ∷ bytes "UNITS=C" ∷ []
unfolding extend_env tool_env lookup
default_units = refl

-- A tool says that it is sunny.
abbrev sunny : Text → List Text → Text → ToolProcess
sunny name env input = record { command = runs 1 true; output = some (bytes "sunny") }

abbrev world : World
world = record {
  has_source = λ name. true;
  build = λ name. ok tt;
  usage = λ name. ok (some weather);
  health = λ name. ok (some (true, []));
}

abbrev surroundings : Surroundings Bool
surroundings = record {
  world = world;
  now = 1;
  base = bytes "tools";
  parse = one_field;
  is_json = λ t. true;
  indent = λ t. none;
  format = string_text;
  room = 8;
  behaves = sunny;
  environment = environment;
  temperature = true;
}

-- An input that a pipe does not hold is never read.
long_input_is_stuck :
    (run_tool string_text 8 (sunny []) weather (bytes "123456789") [] environment (sandbox [])).0
    ≡ err stuck
unfolding run_tool
long_input_is_stuck = refl

abbrev reply : Text → List FunctionCall → Response
reply content calls = record {
  content = content;
  usage = record { prompt = pos 0; completion = pos 0; total = pos 0 };
  error = none;
  tool_calls = calls;
}

-- The first reply calls the tool, the second is the answer.
abbrev model : Answers Bool
model zero prompt options =
    ok (reply [] (record { id = []; name = bytes "weather"; arguments = bytes "city" } ∷ []))
model (suc n) prompt options = ok (reply (bytes "It is sunny.") [])

abbrev made : Factory (Answers Bool)
made name = ok model

abbrev registry : Registry (Answers Bool)
registry = (bytes "openai", made) ∷ []

abbrev helper : Assistant
helper = record {
  name = bytes "helper";
  description = [];
  model = bytes "openai:gpt-4";
  tools = bytes "weather" ∷ [];
  prompt = bytes "Help.";
}

abbrev fresh : Session
fresh = record { manager = []; sandbox = sandbox []; runs = [] }

answered :
    (process surroundings registry (bytes "openai") helper (bytes "How is it?") fresh).0
    ≡ ok (bytes "It is sunny.")
unfolding process create_for_model lookup insert parse_tool_usage parse_model_spec load_tool
    validate_input run_tool execute
answered = refl

process-AllChecked_example :
    AllChecked surroundings
      (process surroundings registry (bytes "openai") helper (bytes "use weather city") fresh).1
process-AllChecked_example =
    process-AllChecked surroundings registry (bytes "openai") helper (bytes "use weather city")
      fresh (λ run m. absurd (Memᴰ.not-nil m))

process-IsAnswer_example :
    (p : Answers Bool) × (create_for_model (Answers Bool) registry helper.model (bytes "openai")
      ≡ ok p)
    × IsAnswer surroundings helper p (bytes "It is sunny.")
process-IsAnswer_example =
    process-IsAnswer surroundings helper registry (bytes "openai") (bytes "How is it?") fresh
      (bytes "It is sunny.") answered

-- What stands behind a line `---` of a prompt is lost.
abbrev anything : Text → Option FrontMatter
anything t = some (record { name = none; description = []; model = t; tools = [] })

prompt_is_cut :
    load_assistant anything (bytes "helper") (
      some (
        bytes "---"
        ++ (newline ∷ bytes "m")
        ++ bytes "---"
        ++ (newline ∷ bytes "First.")
        ++ (newline ∷ bytes "---")
        ++ (newline ∷ bytes "Second.")))
    ≡ ok (record {
      name = bytes "helper";
      description = [];
      model = bytes "m";
      tools = [];
      prompt = bytes "First.";
    })
unfolding load_assistant trim_space trim_right trim_left width is_blank
prompt_is_cut = refl
