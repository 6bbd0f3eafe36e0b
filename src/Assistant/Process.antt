-- ===== src/Assistant/Process.antt =====
-- `Process` of pkg/assistant/assistant.go. The provider is made by the registry of pkg/provider; what
-- it answers to its n-th prompt is a function, and so is what JSON, the compiler and the tools do.
pub mod Checked
pub mod Answered
use skylark.Base.{
  ℕ, Bool, Option, none, some, Result, ok, err, is_ok, List, [], ◌∷◌, ◌++◌, if◌then◌else◌, List_eq,
  ℕ_eq,
}
use skylark.Base.Int.{pos}
use skylark.Base.Dict.{Dict}
use skylark.Text.{Text, bytes, newline, is_nil}
use skylark.Provider.Interface.{Response, RequestOptions, FunctionCall}
use skylark.Provider.Registry.{Registry, RegistryError, create_for_model, parse_model_spec}
use skylark.Tool.{Json, Tool, validate_input}
use skylark.Tool.Run.{RunError, ToolProcess, run_tool}
use skylark.Tool.Manager.{World, ToolError, Manager, load_tool}
use skylark.Sandbox.{Sandbox}
use skylark.Assistant.{Assistant, parse_tool_usage, build_prompt}

pub data AssistantError : Type 0 where
  load_failed : ToolError → AssistantError
  invalid_json : Text → AssistantError
  invalid_input : AssistantError
  run_failed : RunError → AssistantError
  no_provider : RegistryError → AssistantError
  send_failed response_failed : Text → AssistantError

-- What an assistant has around it: the tools' world, JSON, fmt, the room in a pipe, what binaries do,
-- the environment, and the default temperature.
pub record Surroundings (Float : Type 0) : Type 0 where
  pub world : World
  pub now : ℕ
  pub base : Text
  pub parse : Text → Option Json
  pub is_json : Text → Bool
  pub indent : Text → Option Text
  pub format : Json → Text
  pub room : ℕ
  pub behaves : Text → List Text → Text → ToolProcess
  pub environment : Dict Text Text
  pub temperature : Float

-- What the answers of a provider are: to its n-th prompt.
abbrev pub Answers : Type 0 → Type 0
Answers Float = ℕ → Text → RequestOptions Float → Result Text Response

-- The tools that are loaded, the sandbox, and the runs of tools so far, with their input.
pub record Session : Type 0 where
  pub manager : Manager
  pub sandbox : Sandbox
  pub runs : List (Tool × Text)

abbrev pub Outcome : Type 0
Outcome = Result AssistantError Text × Session

-- The rest of a function that returns at an error.
abbrev pub and_then : Outcome → (Text → Session → Outcome) → Outcome
and_then (err e, s) k = (err e, s)
and_then (ok text, s) k = k text s

-- The error of a response, or what goes on without one.
abbrev pub failed_or : Option Text → Result AssistantError Text → Result AssistantError Text
failed_or none r = r
failed_or (some e) r = err (response_failed e)

-- The text of a command with the result of a tool call.
abbrev pub with_result : Text → FunctionCall → Text → Text
with_result text call result =
    text ++ (newline ∷ bytes "Tool '") ++ call.name ++ bytes "' result: " ++ result

-- The answer that ends Process.
unfoldable pub final_answer : Result Text Response → Session → Outcome
final_answer (err e) s = (err (send_failed e), s)
final_answer (ok r) s = (failed_or r.error (ok r.content), s)

module _ {Float : Type 0} (v : Surroundings Float) where
  abbrev pretty : Text → Option Text → Text
  pretty output none = output
  pretty output (some indented) = indented

  abbrev printed : Result RunError Text → Result AssistantError Text
  printed (err e) = err (run_failed e)
  printed (ok output) = ok (pretty output (v.indent output))

  -- The run of a tool on an input that has been checked.
  unfoldable pub run_checked : Tool → Text → Session → Outcome
  run_checked t input s =
      let r =
        run_tool v.format v.room (v.behaves t.name) t.schema input [] v.environment s.sandbox in
      (printed r.0, record s { sandbox = r.1; runs = s.runs ++ ((t, input) ∷ []) })

  unfoldable pub check_input : Tool → Text → Session → Outcome
  unfolding run_checked
  check_input t input s =
      if is_ok (validate_input v.parse t.schema input)
      then run_checked t input s
      else (err invalid_input, s)

  -- An empty input is an object without fields.
  unfoldable pub prepare_input : Tool → Text → Session → Outcome
  unfolding check_input
  prepare_input t input s =
      if is_nil input
      then check_input t (bytes "{}") s
      else if v.is_json input
      then check_input t input s
      else (err (invalid_json input), s)

  unfoldable pub execute_loaded : Result ToolError Tool × Manager → Text → Session → Outcome
  unfolding prepare_input
  execute_loaded (err e, m) input s = (err (load_failed e), record s { manager = m })
  execute_loaded (ok t, m) input s = prepare_input t input (record s { manager = m })

  unfoldable pub execute_tool : Text → Text → Session → Outcome
  unfolding execute_loaded
  execute_tool name input s = execute_loaded (load_tool v.world v.now v.base name s.manager) input s

  -- The loop over the tool calls, which ends at an error; the text of the command becomes longer.
  unfoldable pub run_calls : List FunctionCall → Text → Session → Outcome
  unfolding execute_tool
  run_calls [] text s = (ok text, s)
  run_calls (call ∷ calls) text s =
      and_then (execute_tool call.name call.arguments s)
        (λ result t. run_calls calls (with_result text call result) t)

  -- What each prompt is sent with.
  abbrev pub options : Assistant → RequestOptions Float
  options a = record {
    model = (parse_model_spec a.model).1;
    temperature = v.temperature;
    max_tokens = pos 2000;
  }

  module _ (a : Assistant) (p : Answers Float) where
    -- What follows the tool calls of the first answer.
    unfoldable pub answer_calls : Outcome → Outcome
    unfolding final_answer
    answer_calls r = and_then r (λ text s. final_answer (p 1 (build_prompt a text) (options a)) s)

    -- What is made of an answer without an error of its own, by its tool calls.
    unfoldable pub first_reply :
        Text → Response → Option Text → List FunctionCall → Session → Outcome
    unfolding run_calls answer_calls
    first_reply text r (some e) calls s = (err (response_failed e), s)
    first_reply text r none [] s = (ok r.content, s)
    first_reply text r none (call ∷ calls) s = answer_calls (run_calls (call ∷ calls) text s)

    unfoldable pub first_answer : Text → Result Text Response → Session → Outcome
    unfolding first_reply
    first_answer text (err e) s = (err (send_failed e), s)
    first_answer text (ok r) s = first_reply text r r.error r.tool_calls s

    unfoldable pub ask : Text → Session → Outcome
    unfolding first_answer
    ask text s = first_answer text (p 0 (build_prompt a text) (options a)) s

  -- Process, once the text names no tool or its result has been added to it.
  unfoldable pub create :
      Result RegistryError (Answers Float) → Assistant → Text → Session → Outcome
  unfolding ask
  create (err e) a text s = (err (no_provider e), s)
  create (ok p) a text s = ask a p text s

  -- Process of a command's text.
  unfoldable pub process : Registry (Answers Float) → Text → Assistant → Text → Session → Outcome
  unfolding create execute_tool
  process registry default_provider a text s =
      let usage = parse_tool_usage text in
      let made = create_for_model (Answers Float) registry a.model default_provider in
      if is_nil usage.0
      then create made a text s
      else and_then (execute_tool usage.0 usage.1 s)
          (λ result t. create made a (text ++ (newline ∷ bytes "Tool result: ") ++ result) t)
