-- ===== src/Watcher/Debouncer/Quiet.antt =====
-- The debouncer of pkg/watcher/concrete/debouncer.go starts a function when its events have come to
-- rest.
use skylark.Base.{
  ℕ, ◌+◌, ◌<◌, ◌≤◌, ◌≡◌, refl, ap, sym, ◌∙◌, Bool, true, false, ◌==◌, List, [], ◌∷◌, ◌++◌, Option,
  none, some, keep, leb, length, arith, if-cases, List_eq, ℕ_eq, length-append, inl, subst, inr,
}
use mathlib.Core.List.Memᴰ
use mathlib.Core.List.{Memᴰ}
use skylark.Base.Dict.{lookup, insert}
use skylark.Text.{Text}
use skylark.Watcher.Debouncer.{
  Debouncer, Callback, new_debouncer, stop_timer, arm, debounce_in, debounce, expire, last_event,
  call_back, run_started, run_all, stop,
}
use skylark.Watcher.Debouncer.Bursts.{Action, event, clock, callbacks, stops, act, act_all}
use skylark.Watcher.Debouncer.Counts.{times, call_back-Goes, run_started-runs}
use skylark.Watcher.Debouncer.Contexts.{last_event-set_event, InRange, act_all-InRange}

-- A callback of the key waits for its timer, and its key has been quiet since `now`.
record Armed (key : Text) (now : ℕ) (d : Debouncer) : Type 0 where
  cb : Callback
  key_of : cb.key ≡ key
  waits : Memᴰ cb d.pending
  due : cb.due ≡ now + d.delay
  event_at : last_event cb.context d.last_events ≡ now
  running : d.done ≡ false

arm-Armed :
    (key : Text) (now context : ℕ) (d : Debouncer)
    → context < length d.last_events
    → d.done ≡ false
    → Armed key now (arm key now context d)
unfolding arm
arm-Armed key now context d h e = record {
  cb = record { key = key; context = context; due = now + d.delay };
  key_of = refl;
  waits = Memᴰ.append_right (stop_timer context d.pending) (Memᴰ.head refl);
  due = refl;
  event_at = last_event-set_event context now d.last_events h;
  running = e;
}

debounce_in-Armed :
    (key : Text) (now : ℕ) (o : Option ℕ) (d : Debouncer)
    → ((c : ℕ) → o ≡ some c → c < length d.last_events)
    → d.done ≡ false
    → Armed key now (debounce_in key now o d)
unfolding debounce_in
debounce_in-Armed key now (some context) d r e = arm-Armed key now context d (r context refl) e
debounce_in-Armed key now none d r e =
    arm-Armed key now (length d.last_events)
      (record d {
        timers = insert key (length d.last_events) d.timers;
        last_events = d.last_events ++ (0 ∷ []);
      })
      (omega (arith, length-append d.last_events (0 ∷ []))) e

keep-mem :
    {A : Type 0} (p : A → Bool) (x : A) (xs : List A) → Memᴰ x xs → p x ≡ true → Memᴰ x (keep p xs)
keep-mem p x [] m h = absurd (Memᴰ.not-nil m)
keep-mem p x (y ∷ xs) m h = elim (Memᴰ.cases_cons m) [
  | inl e ↦ if-cases (Memᴰ x) (p y) _ _ (λ q. Memᴰ.head e) (λ q. absurd (cc (h, q, ap p e)))
  | inr n ↦
      if-cases (Memᴰ x) (p y) _ _ (λ q. Memᴰ.tail (keep-mem p x xs n h)) (λ q. keep-mem p x xs n h)
]

Armed-runs :
    (key : Text) (now t : ℕ) (d : Debouncer)
    → Armed key now d
    → now + d.delay ≤ t
    → times key d < times key (run_all t (expire t d))
unfolding run_all expire
Armed-runs key now t d a h =
    subst (λ k. times k d < times k (run_all t (expire t d))) a.key_of
      (run_started-runs (d.started ++ keep (λ (cb : Callback). leb cb.due t) d.pending) t a.cb
        (record (expire t d) { started = [] })
        (Memᴰ.append_right d.started (
          keep-mem (λ (cb : Callback). leb cb.due t) a.cb d.pending a.waits
            (ground (arith, a.due, h))))
        a.running (ground (arith, a.event_at, h)))

run_started-delay :
    (cbs : List Callback) (now : ℕ) (d : Debouncer) → (run_started cbs now d).delay ≡ d.delay
unfolding run_started
run_started-delay [] now d = refl
run_started-delay (cb ∷ cbs) now d =
    run_started-delay cbs now (call_back cb now d) ∙ (call_back-Goes cb now d).delay

-- What an event leaves as it is.
abbrev Keeps : Debouncer → Debouncer → Type 0
Keeps d e = (e.delay ≡ d.delay) × (e.ran ≡ d.ran)

debounce_in-Keeps :
    (key : Text) (now : ℕ) (o : Option ℕ) (d : Debouncer) → Keeps d (debounce_in key now o d)
unfolding debounce_in arm
debounce_in-Keeps key now none d = (refl, refl)
debounce_in-Keeps key now (some context) d = (refl, refl)

debounce-Keeps : (key : Text) (now : ℕ) (d : Debouncer) → Keeps d (debounce key now d)
unfolding debounce
debounce-Keeps key now d =
    if-cases (Keeps d) d.done _ _ (λ e. (refl, refl))
      (λ e. debounce_in-Keeps key now (lookup key d.timers) d)

act-delay : (a : Action) (d : Debouncer) → (act a d).delay ≡ d.delay
unfolding act run_all stop expire
act-delay (event key now) d = (debounce-Keeps key now d).0
act-delay (clock now) d = refl
act-delay (callbacks now) d = run_started-delay d.started now (record d { started = [] })
act-delay stops d =
    if-cases (λ (e : Debouncer). e.delay ≡ d.delay) d.done _ _ (λ e. refl) (λ e. refl)

act_all-delay : (actions : List Action) (d : Debouncer) → (act_all actions d).delay ≡ d.delay
unfolding act_all
act_all-delay [] d = refl
act_all-delay (a ∷ actions) d = act_all-delay actions (act a d) ∙ act-delay a d

debounce-Armed :
    (key : Text) (now : ℕ) (d : Debouncer)
    → InRange d
    → d.done ≡ false
    → Armed key now (debounce key now d)
unfolding debounce
debounce-Armed key now d r e =
    if-cases (Armed key now) d.done _ _ (λ q. absurd (cc (e, q)))
      (λ q. debounce_in-Armed key now (lookup key d.timers) d (r key) e)

-- When an event of a key comes to a new debouncer after whatever has happened to it, which is not
-- stopped by then, and nothing else happens to it until the delay has passed, the expired callbacks
-- start the function of the key once more at least.
pub debounce_runs :
    (delay max_delay : ℕ) (actions : List Action) (key : Text) (now t : ℕ)
    → (act_all actions (new_debouncer delay max_delay)).done ≡ false
    → now + delay ≤ t
    → times key (act_all actions (new_debouncer delay max_delay))
      < times key (
          run_all t (expire t (debounce key now (act_all actions (new_debouncer delay max_delay)))))
unfolding new_debouncer lookup
debounce_runs delay max_delay actions key now t e h =
    let d = act_all actions (new_debouncer delay max_delay) in
    let keeps = debounce-Keeps key now d in
    subst
      (λ ran.
        length (keep (λ k. k == key) ran) < times key (run_all t (expire t (debounce key now d))))
      keeps.1
      (Armed-runs key now t (debounce key now d)
        (debounce-Armed key now d
          (act_all-InRange actions (new_debouncer delay max_delay) (λ k c q. absurd (cc q))) e)
        (subst (λ n. now + n ≤ t)
          (sym (keeps.0 ∙ act_all-delay actions (new_debouncer delay max_delay))) h))
