-- ===== src/Watcher/Debouncer.antt =====
-- pkg/watcher/concrete/debouncer.go. A function to run is known by its key. The mutex makes each
-- method, and the body of each callback, one step; a callback whose timer has expired waits for the
-- mutex, and is not held back by stopping the timer.
pub mod Bursts
pub mod Counts
pub mod Contexts
pub mod Quiet
use skylark.Base.{
  zero, suc, ℕ, List, [], ◌++◌, Option, if◌then◌else◌, keep, ◌-◌, Bool, false, ◌∷◌, not, ◌+◌, some,
  ltb, get_elem?, leb, true, suc, ◌==◌, length, ℕ_eq, List_eq, ◌||◌, any, none,
}
use skylark.Base.Dict.{Dict, lookup, insert, remove}
use skylark.Text.{Text}

-- A timer's callback, with the context that it has captured and the time when the timer expires.
pub record Callback : Type 0 where
  pub key : Text
  pub context : ℕ
  pub due : ℕ

-- `timers` gives the context of a key, and `last_events` the time of the last event of each context.
-- `ran` has the keys whose functions were started.
pub record Debouncer : Type 0 where
  pub delay : ℕ
  pub max_delay : ℕ
  pub timers : Dict Text ℕ
  pub last_events : List ℕ
  pub pending : List Callback
  pub started : List Callback
  pub done : Bool
  pub ran : List Text

unfoldable pub new_debouncer : (delay max_delay : ℕ) → Debouncer
new_debouncer delay max_delay = record {
  delay = delay;
  max_delay = max_delay;
  timers = [];
  last_events = [];
  pending = [];
  started = [];
  done = false;
  ran = [];
}

abbrev pub set_event : ℕ → ℕ → List ℕ → List ℕ
set_event i now [] = []
set_event zero now (t ∷ ts) = now ∷ ts
set_event (suc i) now (t ∷ ts) = t ∷ set_event i now ts

-- ctx.timer.Stop()
abbrev pub stop_timer : ℕ → List Callback → List Callback
stop_timer context pending = keep (λ (cb : Callback). not (cb.context == context)) pending

-- The event's time, and a new timer in place of the one before.
unfoldable pub arm : Text → ℕ → ℕ → Debouncer → Debouncer
arm key now context d = record d {
  last_events = set_event context now d.last_events;
  pending =
      stop_timer context d.pending
      ++ (record { key = key; context = context; due = now + d.delay } ∷ []);
}

unfoldable pub debounce_in : Text → ℕ → Option ℕ → Debouncer → Debouncer
unfolding arm
debounce_in key now (some context) d = arm key now context d
debounce_in key now none d = arm key now (length d.last_events) (record d {
  timers = insert key (length d.last_events) d.timers;
  last_events = d.last_events ++ (0 ∷ []);
})

unfoldable pub debounce : Text → ℕ → Debouncer → Debouncer
unfolding debounce_in
debounce key now d = if d.done then d else debounce_in key now (lookup key d.timers) d

-- The clock reaches a time: the timers that are due expire.
unfoldable pub expire : ℕ → Debouncer → Debouncer
expire now d = record d {
  pending = keep (λ (cb : Callback). ltb now cb.due) d.pending;
  started = d.started ++ keep (λ (cb : Callback). leb cb.due now) d.pending;
}

abbrev pub last_event : ℕ → List ℕ → ℕ
last_event context ts = elim (get_elem? ts context) [ none ↦ 0 | some t ↦ t ]

-- the body of a callback
unfoldable pub call_back : Callback → ℕ → Debouncer → Debouncer
call_back cb now d =
    let quiet = now - last_event cb.context d.last_events in
    if d.done
    then d
    else if leb d.max_delay quiet || leb d.delay quiet
    then record d { timers = remove cb.key d.timers; ran = d.ran ++ (cb.key ∷ []) }
    else d

-- Each callback that waits takes its turn.
unfoldable pub run_started : List Callback → ℕ → Debouncer → Debouncer
unfolding call_back
run_started [] now d = d
run_started (cb ∷ cbs) now d = run_started cbs now (call_back cb now d)

unfoldable pub run_all : ℕ → Debouncer → Debouncer
unfolding run_started
run_all now d = run_started d.started now (record d { started = [] })

unfoldable pub stop : Debouncer → Debouncer
stop d = if d.done then d else record d {
  done = true;
  pending = keep (λ (cb : Callback). not (any (λ entry. entry.1 == cb.context) d.timers)) d.pending;
  timers = [];
}
