-- ===== src/Tool/Run/Permitted.antt =====
-- Which variables a tool gets to see.
use skylark.Base.{true, Option, none, some, List, [], ◌∷◌, ◌++◌, ◌≡◌, all, any, map, ℕ_eq, List_eq}
use mathlib.Core.List.Memᴰ
use mathlib.Core.List.{Memᴰ}
use skylark.Base.Dict.{Dict}
use skylark.Text.{Text, bytes}
use skylark.Sandbox.{is_of, basic_env, Sandbox}
use skylark.Tool.{Json, EnvVar, Schema}
use skylark.Tool.Run.{run_env}

abbrev names_of : Dict Text EnvVar → List Text
names_of specs = map (λ spec. spec.0) specs

-- What a whitelist lets through of the system's environment; an empty one, nothing.
abbrev let_through : List Text → List Text
let_through [] = []
let_through (name ∷ names) = (name ∷ names) ++ basic_env

-- Every entry is of one of these variables.
abbrev pub AllOf : List Text → List Text → Type 0
AllOf names env = all (λ e. any (is_of e) names) env ≡ true

-- The variables that a tool may see in a sandbox that began with a whitelist.
abbrev pub permitted : Schema → List Text → List Text
permitted schema whitelist = bytes "PATH" ∷ (names_of schema.env ++ let_through whitelist)

-- A sandbox lets through no more than one with this whitelist did at first.
abbrev NoMore : List Text → Sandbox → Type 0
NoMore whitelist s =
    (e : Text)
    → any (is_of e) (let_through s.env_whitelist) ≡ true
    → any (is_of e) (let_through whitelist) ≡ true

module _ (format : Json → Text) where
  -- The runs of tools in a sandbox, each with its schema, config and environment.
  abbrev pub sandbox_after : List (Schema × Dict Text Text × Dict Text Text) → Sandbox → Sandbox
  sandbox_after [] s = s
  sandbox_after ((schema, config, environment) ∷ runs) s =
      sandbox_after runs (run_env format schema config environment s).1

  -- The value of a declared variable: of the config, or else of the environment, if it is not empty
  -- there, or else its default, if it has one.
  abbrev pub value_of : Option Text → (current : Text) → Option Json → Option Text
  value_of (some value) current default_value = some value
  value_of none [] none = none
  value_of none [] (some j) = some (format j)
  value_of none (c ∷ current) default_value = some (c ∷ current)
