-- ===== src/Tool/Run.antt =====
-- `Execute` of pkg/tool/tool.go. What the tool's binary does, in its environment and with its input,
-- is an argument, with the room in a pipe, and what fmt makes of a default value.
pub mod Permitted
use skylark.Base.{
  ℕ, Bool, true, false, Option, none, some, Result, ok, err, List, [], ◌∷◌, ◌++◌, if◌then◌else◌,
  ltb, length, List_eq, ℕ_eq,
}
use skylark.Base.Dict.{Dict, lookup}
use skylark.Text.{Text, bytes, is_nil}
use skylark.Sandbox.{Sandbox, SandboxError, Ran, execute, extend_env}
use skylark.Tool.{Json, EnvVar, Schema, Tool}

-- `stuck` is no error: the call waits for ever.
pub data RunError : Type 0 where
  stuck read_failed : RunError
  sandbox_failed : SandboxError → RunError

-- What a process does: what becomes of it, and its output, if that can be read.
pub record ToolProcess : Type 0 where
  pub command : Ran
  pub output : Option Text

-- The entry of a variable that is set.
abbrev pub entry : Text → Text → Text
entry name value = name ++ bytes "=" ++ value

-- os.Getenv: a variable that is not set reads as "".
abbrev value_or_nil : Option Text → Text
value_or_nil none = []
value_or_nil (some value) = value

abbrev pub getenv : Dict Text Text → Text → Text
getenv environment name = value_or_nil (lookup name environment)

-- os.Environ
abbrev pub environ : Dict Text Text → List Text
environ [] = []
environ ((name, value) ∷ environment) = entry name value ∷ environ environment

abbrev pub path_env : Text → List Text
path_env path = if is_nil path then [] else entry (bytes "PATH") path ∷ []

unfoldable read_output : Result SandboxError (Unit {0}) → Option Text → Result RunError Text
read_output (err e) output = err (sandbox_failed e)
read_output (ok u) none = err read_failed
read_output (ok u) (some output) = ok output

module _ (format : Json → Text) where
  abbrev pub default_entry : Text → Option Json → List Text
  default_entry name none = []
  default_entry name (some j) = entry name (format j) ∷ []

  -- The entry of a declared variable: of the config, or of the environment, or its default.
  unfoldable pub choose : Text → EnvVar → Option Text → Text → List Text
  choose name spec (some value) current = entry name value ∷ []
  choose name spec none current =
      if is_nil current then default_entry name spec.default_value else entry name current ∷ []

  -- the loop over the schema's variables
  unfoldable pub declared_env : Dict Text EnvVar → (config environment : Dict Text Text) → List Text
  unfolding choose
  declared_env [] config environment = []
  declared_env ((name, spec) ∷ specs) config environment =
      choose name spec (lookup name config) (getenv environment name)
      ++ declared_env specs config environment

  unfoldable pub tool_env : Schema → (config environment : Dict Text Text) → List Text
  unfolding declared_env
  tool_env schema config environment =
      path_env (getenv environment (bytes "PATH")) ++ declared_env schema.env config environment

  -- The environment that the tool runs in, with the sandbox after it.
  abbrev pub run_env :
      Schema → (config environment : Dict Text Text) → Sandbox → List Text × Sandbox
  run_env schema config environment s =
      extend_env (environ environment) (tool_env schema config environment) s

  -- Execute. The input is written before the command is started, so one that the pipe does not hold
  -- is never read.
  unfoldable pub run_tool :
      ℕ
      → (List Text → Text → ToolProcess)
      → Schema
      → Text
      → (config environment : Dict Text Text) → Sandbox
      → Result RunError Text × Sandbox
  unfolding tool_env read_output
  run_tool room behaves schema input config environment s =
      if ltb room (length input)
      then (err stuck, s)
      else (let env = tool_env schema config environment in
          let outcome =
            execute (environ environment) (λ all_env. (behaves all_env input).command) env s in
          let output = (behaves (run_env schema config environment s).0 input).output in
          (read_output outcome.0 output, outcome.1))
