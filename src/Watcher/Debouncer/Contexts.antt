-- ===== src/Watcher/Debouncer/Contexts.antt =====
-- The contexts of pkg/watcher/concrete/debouncer.go are where the debouncer's map says.
use skylark.Base.{
  ℕ, zero, suc, ◌+◌, ◌-◌, ◌<◌, ◌≡◌, refl, ap, sym, ◌∙◌, Bool, true, false, ◌||◌, ◌==◌, List, [],
  ◌∷◌, ◌++◌, Option, none, some, leb, length, arith, if-cases, if◌then◌else◌, List_eq, ℕ_eq,
  length-append, subst,
}
use skylark.Base.Dict.{lookup, insert, lookup-insert, lookup-remove}
use skylark.Text.{Text}
use skylark.Watcher.Debouncer.{
  Debouncer, Callback, set_event, arm, debounce_in, debounce, expire, last_event, call_back,
  run_started, run_all, stop,
}
use skylark.Watcher.Debouncer.Bursts.{Action, event, clock, callbacks, stops, act, act_all}
use mathlib.Core.Option.{some-injective}

length-set_event : (i now : ℕ) (ts : List ℕ) → length (set_event i now ts) ≡ length ts
length-set_event i now [] = refl
length-set_event zero now (t ∷ ts) = refl
length-set_event (suc i) now (t ∷ ts) = ap suc (length-set_event i now ts)

pub last_event-set_event :
    (i now : ℕ) (ts : List ℕ) → i < length ts → last_event i (set_event i now ts) ≡ now
last_event-set_event i now [] h = absurd (omega (arith, h))
last_event-set_event zero now (t ∷ ts) h = refl
last_event-set_event (suc i) now (t ∷ ts) h = last_event-set_event i now ts (omega (arith, h))

-- Each key's context is there.
abbrev pub InRange : Debouncer → Type 0
InRange d =
    (key : Text) (context : ℕ) → lookup key d.timers ≡ some context → context < length d.last_events

arm-InRange :
    (key : Text) (now context : ℕ) (d : Debouncer) → InRange d → InRange (arm key now context d)
unfolding arm
arm-InRange key now context d r k c h =
    omega (arith, r k c h, length-set_event context now d.last_events)

chosen-below :
    (b : Bool) (n : ℕ) (o : Option ℕ) (c : ℕ)
    → (o ≡ some c → c < n)
    → (if b then some n else o) ≡ some c
    → c < n + 1
chosen-below true n o c r h = omega (arith, some-injective _ _ h)
chosen-below false n o c r h = omega (arith, r h)

added-InRange :
    (key : Text) (d : Debouncer)
    → InRange d
    → InRange (record d {
      timers = insert key (length d.last_events) d.timers;
      last_events = d.last_events ++ (0 ∷ []);
    })
added-InRange key d r k c h =
    subst (λ n. c < n) (sym (length-append d.last_events (0 ∷ [])))
      (chosen-below (key == k) (length d.last_events) (lookup k d.timers) c (r k c)
        (sym (lookup-insert key k (length d.last_events) d.timers) ∙ h))

debounce_in-InRange :
    (key : Text) (now : ℕ) (o : Option ℕ) (d : Debouncer)
    → InRange d
    → InRange (debounce_in key now o d)
unfolding debounce_in
debounce_in-InRange key now (some context) d r = arm-InRange key now context d r
debounce_in-InRange key now none d r =
    arm-InRange key now (length d.last_events)
      (record d {
        timers = insert key (length d.last_events) d.timers;
        last_events = d.last_events ++ (0 ∷ []);
      })
      (added-InRange key d r)

debounce-InRange : (key : Text) (now : ℕ) (d : Debouncer) → InRange d → InRange (debounce key now d)
unfolding debounce
debounce-InRange key now d r =
    if-cases InRange d.done _ _ (λ e. r)
      (λ e. debounce_in-InRange key now (lookup key d.timers) d r)

if_none : (b : Bool) (o : Option ℕ) (c : ℕ) → (if b then none else o) ≡ some c → o ≡ some c
if_none true o c h = absurd (cc h)
if_none false o c h = h

call_back-InRange :
    (cb : Callback) (now : ℕ) (d : Debouncer) → InRange d → InRange (call_back cb now d)
unfolding call_back
call_back-InRange cb now d r =
    if-cases InRange d.done _ _ (λ e. r)
      (λ e.
        if-cases InRange
          (leb d.max_delay (now - last_event cb.context d.last_events)
            || leb d.delay (now - last_event cb.context d.last_events))
          _ _
          (λ q k c h. r k c (
            if_none (cb.key == k) (lookup k d.timers) c
              (sym (lookup-remove cb.key k d.timers) ∙ h)))
          (λ q. r))

run_started-InRange :
    (cbs : List Callback) (now : ℕ) (d : Debouncer) → InRange d → InRange (run_started cbs now d)
unfolding run_started
run_started-InRange [] now d r = r
run_started-InRange (cb ∷ cbs) now d r =
    run_started-InRange cbs now (call_back cb now d) (call_back-InRange cb now d r)

act-InRange : (a : Action) (d : Debouncer) → InRange d → InRange (act a d)
unfolding act run_all stop expire lookup
act-InRange (event key now) d r = debounce-InRange key now d r
act-InRange (clock now) d r = r
act-InRange (callbacks now) d r = run_started-InRange d.started now (record d { started = [] }) r
act-InRange stops d r = if-cases InRange d.done _ _ (λ e. r) (λ e k c h. absurd (cc h))

pub act_all-InRange :
    (actions : List Action) (d : Debouncer) → InRange d → InRange (act_all actions d)
unfolding act_all
act_all-InRange [] d r = r
act_all-InRange (a ∷ actions) d r = act_all-InRange actions (act a d) (act-InRange a d r)
