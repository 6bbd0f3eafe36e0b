-- ===== src/Watcher/Debouncer/Bursts.antt =====
-- What the debouncer of pkg/watcher/concrete/debouncer.go does in a burst of events, and when it is
-- stopped.
use skylark.Base.{
  ℕ, ◌+◌, ◌<◌, ◌≡◌, refl, ap, ◌∙◌, true, false, List, [], ◌∷◌, ◌++◌, some, keep, all, ltb, leb,
  arith, ℕ_eq, ==_refl, if◌then◌else◌, List_eq,
}
use skylark.Base.Dict.{lookup, insert}
use skylark.Text.{Text}
use skylark.Watcher.Debouncer.{
  new_debouncer, Debouncer, Callback, debounce, debounce_in, arm, expire, call_back, run_started,
  run_all, stop, stop_timer,
}
use mathlib.Core.Path.{ap₂}

-- What happens to a debouncer.
pub data Action : Type 0 where
  event : (key : Text) → (now : ℕ) → Action
  clock : (now : ℕ) → Action
  callbacks : (now : ℕ) → Action
  stops : Action

unfoldable pub act : Action → Debouncer → Debouncer
unfolding debounce expire run_all stop
act (event key now) d = debounce key now d
act (clock now) d = expire now d
act (callbacks now) d = run_all now d
act stops d = stop d

unfoldable pub act_all : List Action → Debouncer → Debouncer
unfolding act
act_all [] d = d
act_all (a ∷ actions) d = act_all actions (act a d)

run_started-done :
    (cbs : List Callback) (now : ℕ) (d : Debouncer) → d.done ≡ true → run_started cbs now d ≡ d
unfolding run_started call_back
run_started-done [] now d h = refl
run_started-done (cb ∷ cbs) now d h =
    ap (run_started cbs now) (rw h refl) ∙ run_started-done cbs now d h

-- Nothing more runs, and the debouncer is stopped.
abbrev Stopped : Debouncer → Debouncer → Type 0
Stopped d e = (e.done ≡ true) × (e.ran ≡ d.ran)

act-Stopped : (a : Action) (d : Debouncer) → d.done ≡ true → Stopped d (act a d)
unfolding act debounce expire run_all stop
act-Stopped (event key now) d h = rw h (refl, refl)
act-Stopped (clock now) d h = (h, refl)
act-Stopped (callbacks now) d h =
    let same = run_started-done d.started now (record d { started = [] }) h in
    (ap (λ (e : Debouncer). e.done) same ∙ h, ap (λ (e : Debouncer). e.ran) same)
act-Stopped stops d h = rw h (refl, refl)

-- Once the debouncer is stopped, no function is started, whatever events come and timers expire.
act_all-stopped :
    (actions : List Action) (d : Debouncer) → d.done ≡ true → (act_all actions d).ran ≡ d.ran
unfolding act_all
act_all-stopped [] d h = refl
act_all-stopped (a ∷ actions) d h =
    let s = act-Stopped a d h in act_all-stopped actions (act a d) s.0 ∙ s.1

-- A burst of events of a key: the gaps between them, with the clock and the callbacks in time.
unfoldable pub burst : Text → ℕ → List ℕ → Debouncer → Debouncer
burst key now [] d = d
burst key now (gap ∷ gaps) d =
    burst key (now + gap) gaps
      (debounce key (now + gap) (run_all (now + gap) (expire (now + gap) d)))

-- One timer is armed, for an event of a key.
record IsArmed (key : Text) (now context : ℕ) (d : Debouncer) : Type 0 where
  open_ : d.done ≡ false
  quiet : d.started ≡ []
  known : lookup key d.timers ≡ some context
  armed : d.pending ≡ record { key = key; context = context; due = now + d.delay } ∷ []

-- The clock has reached a time before the timer is due, and no callback was there to run.
abbrev ticked : ℕ → Debouncer → Debouncer
ticked later d = record d {
  pending = keep (λ (cb : Callback). ltb later cb.due) d.pending;
  started = [];
}

none_due :
    (key : Text) (now context later : ℕ) (d : Debouncer)
    → later < now + d.delay
    → IsArmed key now context d
    → d.started ++ keep (λ (cb : Callback). leb cb.due later) d.pending ≡ []
none_due key now context later d h a =
    ap₂ (λ (cbs pending : List Callback). cbs ++ keep (λ (cb : Callback). leb cb.due later) pending)
      a.quiet a.armed
    ∙ ground (arith, h)

run_all-expire :
    (key : Text) (now context later : ℕ) (d : Debouncer)
    → later < now + d.delay
    → IsArmed key now context d
    → run_all later (expire later d) ≡ ticked later d
unfolding run_all expire run_started
run_all-expire key now context later d h a =
    ap (λ cbs. run_started cbs later (ticked later d)) (none_due key now context later d h a)

ticked-IsArmed :
    (key : Text) (now context later : ℕ) (d : Debouncer)
    → later < now + d.delay
    → IsArmed key now context d
    → IsArmed key now context (ticked later d)
ticked-IsArmed key now context later d h a = record {
  open_ = a.open_;
  quiet = refl;
  known = a.known;
  armed = ap (keep (λ (cb : Callback). ltb later cb.due)) a.armed ∙ ground (arith, h);
}

debounce-arm :
    (key : Text) (now context later : ℕ) (d : Debouncer)
    → IsArmed key now context d
    → debounce key later d ≡ arm key later context d
unfolding debounce debounce_in
debounce-arm key now context later d a =
    ap (λ b. if b then d else debounce_in key later (lookup key d.timers) d) a.open_
    ∙ ap (λ o. debounce_in key later o d) a.known

arm-IsArmed :
    (key : Text) (now context later : ℕ) (d : Debouncer)
    → IsArmed key now context d
    → IsArmed key later context (arm key later context d)
unfolding arm
arm-IsArmed key now context later d a = record {
  open_ = a.open_;
  quiet = a.quiet;
  known = a.known;
  armed =
      ap
        (λ (pending : List Callback).
          stop_timer context pending
          ++ (record { key = key; context = context; due = later + d.delay } ∷ []))
        a.armed
      ∙ rw (==_refl context) refl;
}

burst-ran :
    (key : Text) (now context : ℕ) (gaps : List ℕ) (d : Debouncer)
    → IsArmed key now context d
    → all (λ gap. ltb gap d.delay) gaps ≡ true
    → (burst key now gaps d).ran ≡ d.ran
unfolding burst arm
burst-ran key now context [] d a g = refl
burst-ran key now context (gap ∷ gaps) d a g =
    let later = now + gap in
    let b = ticked-IsArmed key now context later d (ground (arith, g)) a in
    let same =
      ap (debounce key later) (run_all-expire key now context later d (ground (arith, g)) a)
      ∙ debounce-arm key now context later (ticked later d) b in
    ap (λ e. (burst key later gaps e).ran) same
    ∙ burst-ran key later context gaps (arm key later context (ticked later d))
        (arm-IsArmed key now context later (ticked later d) b) (ground (arith, g))

debounce-new_debouncer-IsArmed :
    (key : Text) (now delay max_delay : ℕ)
    → IsArmed key now 0 (debounce key now (new_debouncer delay max_delay))
unfolding debounce debounce_in arm new_debouncer lookup insert
debounce-new_debouncer-IsArmed key now delay max_delay = record {
  open_ = refl;
  quiet = refl;
  known = rw (==_refl key) refl;
  armed = refl;
}

-- In a new debouncer to which only events of one key come, the function of the key is never started
-- while each event comes less than the delay after the event before, however many there are and
-- whatever the maximal delay is.
pub burst_starves :
    (key : Text) (now delay max_delay : ℕ) (gaps : List ℕ)
    → all (λ gap. ltb gap delay) gaps ≡ true
    → (burst key now gaps (debounce key now (new_debouncer delay max_delay))).ran ≡ []
unfolding debounce debounce_in arm new_debouncer lookup
burst_starves key now delay max_delay gaps h =
    burst-ran key now 0 gaps (debounce key now (new_debouncer delay max_delay))
      (debounce-new_debouncer-IsArmed key now delay max_delay) h
