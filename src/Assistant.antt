-- ===== src/Assistant.antt =====
-- pkg/assistant/assistant.go: the loading of assistants, and what their prompts are made of.
pub mod Process
use skylark.Base.{
  ℕ, zero, suc, ◌-◌, Bool, Option, none, some, Result, ok, err, List, [], ◌∷◌, ◌++◌, if◌then◌else◌,
  ◌==◌, length, List_eq, ℕ_eq, drop,
}
use skylark.Base.Dict.{Dict, lookup, insert}
use skylark.Text.{Text, bytes, newline, is_nil, has_prefix, to_lower}
use skylark.Text.Split.{push_byte}
use skylark.Text.Trim.{trim_space}

pub record Assistant : Type 0 where
  pub name : Text
  pub description : Text
  pub model : Text
  pub tools : List Text
  pub prompt : Text

-- What YAML says of an assistant; a name that it does not give is left as it is.
pub record FrontMatter : Type 0 where
  pub name : Option Text
  pub description : Text
  pub model : Text
  pub tools : List Text

pub data LoadError : Type 0 where
  read_failed missing_front_matter invalid_front_matter : LoadError

-- strings.Split(s, sep), where `skipped` bytes of a separator are still to come.
unfoldable split_from : Text → ℕ → Text → List Text
split_from sep skipped [] = [] ∷ []
split_from sep (suc skipped) (c ∷ s) = split_from sep skipped s
split_from sep zero (c ∷ s) =
    let behind = split_from sep (length sep - 1) s in
    let next = split_from sep zero s in
    if has_prefix (c ∷ s) sep then [] ∷ behind else push_byte newline c next

abbrev given_name : Text → Option Text → Text
given_name name none = name
given_name name (some given) = given

-- The assistant of the second part, with the third part as its prompt.
unfoldable with_prompt : Text → Option FrontMatter → Text → Result LoadError Assistant
with_prompt name none body = err invalid_front_matter
with_prompt name (some front) body = ok (record {
  name = given_name name front.name;
  description = front.description;
  model = front.model;
  tools = front.tools;
  prompt = trim_space body;
})

unfoldable keep_loaded :
    Text
    → Result LoadError Assistant
    → Dict Text Assistant
    → Result LoadError Assistant × Dict Text Assistant
keep_loaded name (err e) m = (err e, m)
keep_loaded name (ok a) m = (ok a, insert name a m)

module _ (yaml : Text → Option FrontMatter) where
  unfoldable of_parts : Text → List Text → Result LoadError Assistant
  unfolding with_prompt
  of_parts name (before ∷ front ∷ body ∷ behind) = with_prompt name (yaml front) body
  of_parts name parts = err missing_front_matter

  -- loadAssistant, of the content of prompt.md, if it can be read
  unfoldable pub load_assistant : Text → Option Text → Result LoadError Assistant
  unfolding of_parts split_from
  load_assistant name none = err read_failed
  load_assistant name (some content) =
      of_parts name (split_from (bytes "---" ++ (newline ∷ [])) 0 content)

  unfoldable pub get_found :
      (Text → Option Text)
      → Text
      → Option Assistant
      → Dict Text Assistant
      → Result LoadError Assistant × Dict Text Assistant
  unfolding load_assistant keep_loaded
  get_found read name (some a) m = (ok a, m)
  get_found read name none m = keep_loaded name (load_assistant name (read name)) m

  -- Get, where `read` gives the prompt.md of a name.
  unfoldable pub get :
      (Text → Option Text)
      → Text
      → Dict Text Assistant
      → Result LoadError Assistant × Dict Text Assistant
  unfolding get_found
  get read name m = get_found read name (lookup name m) m

-- strings.SplitN(s, " ", 2): the tool's name, and its input if there is one
unfoldable split_space : Text → Text × Text
split_space [] = ([], [])
split_space (c ∷ s) = let rest = split_space s in if c == 32 then ([], s) else (c ∷ rest.0, rest.1)

unfoldable pub parse_tool_usage : Text → Text × Text
unfolding split_space
parse_tool_usage text =
    if has_prefix (to_lower text) (bytes "use ") then split_space (drop 4 text) else ([], [])

abbrev tool_lines : List Text → Text
tool_lines [] = []
tool_lines (tool ∷ tools) = (bytes "- " ++ tool ++ (newline ∷ [])) ++ tool_lines tools

abbrev available : List Text → Text
available [] = []
available (tool ∷ tools) =
    bytes "Available tools:" ++ (newline ∷ []) ++ tool_lines (tool ∷ tools) ++ (newline ∷ [])

unfoldable pub build_prompt : Assistant → Text → Text
build_prompt a text =
    a.prompt
    ++ (newline ∷ newline ∷ [])
    ++ available a.tools
    ++ bytes "Command: "
    ++ text
    ++ (newline ∷ [])
