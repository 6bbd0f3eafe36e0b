-- ===== src/Tool/Manager.antt =====
-- `Manager` of pkg/tool/tool.go: tools are compiled, asked for their schema and their health, and
-- kept. What the compiler and the tool's binary answer is an argument.
use skylark.Base.{
  ℕ, Bool, Option, none, some, Result, ok, err, [], ◌++◌, if◌then◌else◌, List_eq, ℕ_eq,
}
use skylark.Base.Dict.{Dict, lookup, insert}
use skylark.Text.{Text, bytes, has_suffix}
use skylark.Text.Split.{split_on, last_two}
use skylark.Tool.{Schema, Tool}

-- What the tools' directory, the compiler and the binaries answer about a tool: whether it has a main
-- file, what `go build` says, the schema that `--usage` prints, and the status that `--health` does.
pub record World : Type 0 where
  pub has_source : Text → Bool
  pub build : Text → Result Text (Unit {0})
  pub usage : Text → Result Text (Option Schema)
  pub health : Text → Result Text (Option (Bool × Text))

pub data ToolError : Type 0 where
  not_found : Text → ToolError
  compilation_failed usage_failed health_failed : Text → ToolError
  invalid_schema invalid_health : ToolError
  unhealthy : Text → ToolError

abbrev pub Manager : Type 0
Manager = Dict Text Tool

-- The time of the build is kept with a tool that is there.
unfoldable built : ℕ → Text → Option Tool → Manager → Manager
built now name none m = m
built now name (some tool) m = insert name (record tool { last_built = some now }) m

unfoldable compile : World → ℕ → Text → Manager → Result ToolError (Unit {0}) × Manager
unfolding built
compile w now name m = elim (w.build name) [
  | err output ↦ (err (compilation_failed output), m)
  | ok u ↦ (ok tt, built now name (lookup name m) m)
]

unfoldable load_schema : World → Text → Result ToolError Schema
load_schema w name = elim (w.usage name) [
  | err e ↦ err (usage_failed e)
  | ok none ↦ err invalid_schema
  | ok (some schema) ↦ ok schema
]

unfoldable check_status : Bool × Text → Result ToolError (Unit {0})
check_status (status, details) = if status then ok tt else err (unhealthy details)

unfoldable check_health : World → Text → Result ToolError (Unit {0})
unfolding check_status
check_health w name = elim (w.health name) [
  | err e ↦ err (health_failed e)
  | ok none ↦ err invalid_health
  | ok (some status) ↦ check_status status
]

-- The path of a tool, below the manager's.
abbrev tool_path : Text → Text → Text
tool_path base name = base ++ bytes "/" ++ name

abbrev new_tool : Text → Text → Schema → Tool
new_tool base name schema = record {
  name = name;
  path = tool_path base name;
  last_built = none;
  schema = schema;
}

-- what follows the compilation
unfoldable load_built :
    World → Text → Text → Result ToolError (Unit {0}) × Manager → Result ToolError Tool × Manager
unfolding load_schema check_health
load_built w base name (err e, m) = (err e, m)
load_built w base name (ok u, m) = elim (load_schema w name) [
  | err e ↦ (err e, m)
  | ok schema ↦ elim (check_health w name) [
    | err e ↦ (err e, m)
    | ok healthy ↦ (ok (new_tool base name schema), insert name (new_tool base name schema) m)
  ]
]

unfoldable load_new : World → ℕ → Text → Text → Manager → Result ToolError Tool × Manager
unfolding load_built compile
load_new w now base name m =
    if w.has_source name
    then load_built w base name (compile w now name m)
    else (err (not_found name), m)

-- LoadTool: a tool that is there is not looked at again.
unfoldable load_found :
    World → ℕ → Text → Text → Option Tool → Manager → Result ToolError Tool × Manager
unfolding load_new
load_found w now base name (some tool) m = (ok tool, m)
load_found w now base name none m = load_new w now base name m

unfoldable pub load_tool : World → ℕ → Text → Text → Manager → Result ToolError Tool × Manager
unfolding load_found
load_tool w now base name m = load_found w now base name (lookup name m) m

abbrev is_go_file : Text → Bool
is_go_file file = has_suffix file (bytes ".go")

-- The handling of an event of the watcher: a Go file's folder is compiled.
unfoldable source_changed : World → ℕ → Text → Manager → Manager
unfolding compile
source_changed w now path m =
    let (folder, file) = last_two [] [] (split_on 47 path) in
    if is_go_file file then (compile w now folder m).1 else m
