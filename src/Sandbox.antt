-- ===== src/Sandbox.antt =====
-- pkg/sandbox/sandbox.go: the environment of a command, the cache of results, and versions.
pub mod Version
use skylark.Base.{
  ℕ, Bool, true, false, ◌&&◌, Option, none, some, Result, ok, err, List, [], ◌∷◌, ◌++◌, ◌-◌,
  if◌then◌else◌, ltb, any, keep, List_eq, ℕ_eq,
}
use skylark.Base.Dict.{Dict, insert, lookup, remove}
use skylark.Text.{Text, bytes, has_prefix}

pub record Sandbox : Type 0 where
  pub max_cpu_time : ℕ
  pub env_whitelist : List Text
  pub tool_version : Text
  pub cache_enabled : Bool

-- What becomes of a command: it does not start, or it runs for some time, and then has failed or not.
pub data Ran : Type 0 where
  no_start : Ran
  runs : (duration : ℕ) → (success : Bool) → Ran

pub data SandboxError : Type 0 where
  start_failed killed exit_failed write_failed : SandboxError

abbrev pub basic_env : List Text
basic_env = bytes "PATH" ∷ bytes "HOME" ∷ bytes "USER" ∷ bytes "SHELL" ∷ []

-- An entry of an environment is of a variable.
abbrev pub is_of : Text → Text → Bool
is_of env name = has_prefix env (name ++ bytes "=")

-- The loop over os.Environ()
unfoldable pub filtered : List Text → List Text → List Text
filtered environ whitelist = keep (λ env. any (is_of env) whitelist) environ

-- The environment of a command, from its own and the system's; the list of names grows by the basic
-- ones at each call.
unfoldable pub extend_env : List Text → List Text → Sandbox → List Text × Sandbox
unfolding filtered
extend_env environ tool_env s = elim s.env_whitelist [
  | [] ↦ (tool_env, s)
  | name ∷ names ↦ (
    tool_env ++ filtered environ ((name ∷ names) ++ basic_env),
    record s { env_whitelist = (name ∷ names) ++ basic_env },
  )
]

-- Start and Wait, with the timer that kills the command; a limit of 0 is none.
unfoldable run_command : Sandbox → Ran → Result SandboxError (Unit {0})
run_command s no_start = err start_failed
run_command s (runs duration success) =
    if ltb 0 s.max_cpu_time && ltb s.max_cpu_time duration
    then err killed
    else if success
    then ok tt
    else err exit_failed

-- Execute, where `behaves` says what becomes of the command in its environment.
unfoldable pub execute :
    List Text → (List Text → Ran) → List Text → Sandbox → Result SandboxError (Unit {0}) × Sandbox
unfolding extend_env run_command
execute environ behaves tool_env s =
    let e = extend_env environ tool_env s in (run_command e.1 (behaves e.0), e.1)

-- The files of the cache, with the times of their last change.
abbrev Cache : Type 0
Cache = Dict Text (ℕ × Text)

abbrev hour : ℕ
hour = 3600000000000

unfoldable read_cached : ℕ → Text → Option (ℕ × Text) → Cache → Option Text × Cache
read_cached now key none cache = (none, cache)
read_cached now key (some (changed, result)) cache =
    if ltb hour (now - changed) then (none, remove key cache) else (some result, cache)

unfoldable get_cached_result : Sandbox → ℕ → Text → Cache → Option Text × Cache
unfolding read_cached
get_cached_result s now key cache =
    if s.cache_enabled then read_cached now key (lookup key cache) cache else (none, cache)

unfoldable set_cached_result :
    Sandbox → ℕ → Text → Text → (writes : Bool) → Cache → Result SandboxError (Unit {0}) × Cache
set_cached_result s now key result writes cache =
    if s.cache_enabled
    then (if writes then (ok tt, insert key (now, result) cache) else (err write_failed, cache))
    else (ok tt, cache)
