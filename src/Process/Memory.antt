-- ===== src/Process/Memory.antt =====
-- pkg/process/memory/manager.go. A process of the manager is a state that its methods change, each in
-- one step under its mutex; the callback of its timer is a step too. The streams are left out: they
-- are set and never read.
pub mod Runs
pub mod Ids
use skylark.Base.{
  ℕ, suc, List, Result, Bool, if◌then◌else◌, Option, ok, [], ◌||◌, some, true, err, false, not,
  ℕ_eq, List_eq, none, nat_eq, ◌&&◌,
}
use skylark.Base.Int.{ℤ, pos, negsuc, ltb_ℤ}
use skylark.Base.Dict.{Dict, lookup, insert}
use skylark.Text.{Text}

pub record ResourceLimits : Type 0 where
  pub max_cpu_time : ℤ
  pub max_memory_mb : ℤ
  pub max_file_size_mb : ℤ
  pub max_files : ℤ
  pub max_processes : ℤ

pub data ProcessError : Type 0 where
  not_found already_exists not_running invalid_limits limits_while_running killed : ProcessError

-- `timer` says whether the process holds a timer, and if so, whether its callback is yet to run;
-- `stale` counts the callbacks that may yet run of timers that it holds no longer.
pub record Process : Type 0 where
  pub id : ℕ
  pub name : Text
  pub args : List Text
  pub running : Bool
  pub exit_code : ℤ
  pub limits : ResourceLimits
  pub timer : Option Bool
  pub stale : ℕ

abbrev pub Done : Type 0
Done = Result ProcessError (Unit {0})

abbrev pub negative : ℤ → Bool
negative n = ltb_ℤ n (pos 0)

unfoldable pub validate_limits : ResourceLimits → Done
validate_limits l =
    if negative l.max_cpu_time
      || negative l.max_memory_mb
      || negative l.max_file_size_mb
      || negative l.max_files
      || negative l.max_processes
    then err invalid_limits
    else ok tt

-- A timer whose callback is yet to run is forgotten when another one takes its place; and when it is
-- stopped, since its callback may already wait for the mutex.
abbrev pub forget : Option Bool → ℕ → ℕ
forget none stale = stale
forget (some false) stale = stale
forget (some true) stale = suc stale

-- p.clock.AfterFunc, if there is a limit on the time
unfoldable pub set_timer : Process → Process
set_timer p =
    if ltb_ℤ (pos 0) p.limits.max_cpu_time
    then record p { timer = some true; stale = forget p.timer p.stale }
    else p

unfoldable pub start_valid : Process → Done → Done × Process
unfolding set_timer
start_valid p (ok u) = (ok tt, set_timer (record p { running = true }))
start_valid p (err e) = (err e, p)

unfoldable pub start : Process → Done × Process
unfolding start_valid validate_limits
start p = if p.running then (err already_exists, p) else start_valid p (validate_limits p.limits)

-- the body of the timer's callback
unfoldable pub expire : Process → Process
expire p = if p.running then record p { running = false; exit_code = negsuc 0 } else p

abbrev pub was_killed : ℤ → Bool
was_killed (pos n) = false
was_killed (negsuc n) = nat_eq n 0

unfoldable pub wait : Process → Done × Process
wait p =
    if not p.running && not (was_killed p.exit_code)
    then (err not_running, p)
    else if was_killed p.exit_code
    then (err killed, record p { running = false; timer = none; stale = forget p.timer p.stale })
    else (
      ok tt,
      record p { running = false; exit_code = pos 0; timer = none; stale = forget p.timer p.stale },
    )

unfoldable pub signal : Bool → Process → Done × Process
signal is_kill p =
    if not p.running
    then (err not_running, p)
    else (ok tt, if is_kill then record p { running = false; exit_code = negsuc 0 } else p)

unfoldable pub set_limits_valid : ResourceLimits → Process → Done → Done × Process
set_limits_valid l p (ok u) = (ok tt, record p { limits = l })
set_limits_valid l p (err e) = (err e, p)

unfoldable pub set_limits : ResourceLimits → Process → Done × Process
unfolding set_limits_valid validate_limits
set_limits l p =
    if p.running then (err limits_while_running, p) else set_limits_valid l p (validate_limits l)

pub record Manager : Type 0 where
  pub processes : Dict ℕ Process
  pub next_pid : ℕ
  pub default_limit : ResourceLimits

abbrev pub no_limits : ResourceLimits
no_limits = record {
  max_cpu_time = pos 0;
  max_memory_mb = pos 0;
  max_file_size_mb = pos 0;
  max_files = pos 0;
  max_processes = pos 0;
}

abbrev pub new_manager : Manager
new_manager = record { processes = []; next_pid = 1; default_limit = no_limits }

unfoldable pub new_process : ℕ → Text → List Text → ResourceLimits → Process
new_process id name args limits = record {
  id = id;
  name = name;
  args = args;
  running = false;
  exit_code = pos 0;
  limits = limits;
  timer = none;
  stale = 0;
}

-- Manager.New
unfoldable pub new : Text → List Text → Manager → Process × Manager
unfolding new_process
new name args m =
    let proc = new_process m.next_pid name args m.default_limit in
    (proc, record m { processes = insert proc.id proc m.processes; next_pid = suc m.next_pid })

-- Manager.Get
unfoldable pub get : ℕ → Manager → Result ProcessError Process
get pid m = elim (lookup pid m.processes) [ none ↦ err not_found | some p ↦ ok p ]

-- Manager.SetDefaultLimits, which checks nothing
unfoldable pub set_default_limits : ResourceLimits → Manager → Manager
set_default_limits l m = record m { default_limit = l }
