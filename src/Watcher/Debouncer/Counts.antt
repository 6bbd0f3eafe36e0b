-- ===== src/Watcher/Debouncer/Counts.antt =====
-- How the callbacks of pkg/watcher/concrete/debouncer.go start functions.
use skylark.Base.{
  ℕ, ◌+◌, ◌-◌, ◌<◌, ◌≤◌, ◌≡◌, refl, ◌∙◌, true, false, ◌||◌, ◌==◌, ==_refl, List, [], ◌∷◌, ◌++◌,
  keep, leb, length, arith, if-cases, if◌then◌else◌, List_eq, ℕ_eq, inl, subst, inr,
}
use mathlib.Core.List.Memᴰ
use mathlib.Core.List.{Memᴰ}
use skylark.Text.{Text}
use skylark.Watcher.Debouncer.{Debouncer, Callback, last_event, call_back, run_started}
use mathlib.Core.Path.{ap₂}

-- How often the function of a key was started.
abbrev pub times : Text → Debouncer → ℕ
times key d = length (keep (λ k. k == key) d.ran)

times-append :
    (key last : Text) (ran : List Text)
    → length (keep (λ k. k == key) (ran ++ (last ∷ [])))
      ≡ length (keep (λ k. k == key) ran) + (if last == key then 1 else 0)
times-append key last [] = ground arith
times-append key last (k ∷ ran) = ground (arith, times-append key last ran)

-- What the callbacks leave as it is, and that what has run stays.
pub record Goes (d e : Debouncer) : Type 0 where
  pub done : e.done ≡ d.done
  pub last_events : e.last_events ≡ d.last_events
  pub delay : e.delay ≡ d.delay
  pub ran : (key : Text) → times key d ≤ times key e

Goes-refl : (d : Debouncer) → Goes d d
Goes-refl d = record { done = refl; last_events = refl; delay = refl; ran = λ key. omega arith }

pub call_back-Goes : (cb : Callback) (now : ℕ) (d : Debouncer) → Goes d (call_back cb now d)
unfolding call_back
call_back-Goes cb now d =
    if-cases (Goes d) d.done _ _ (λ e. Goes-refl d)
      (λ e.
        if-cases (Goes d)
          (leb d.max_delay (now - last_event cb.context d.last_events)
            || leb d.delay (now - last_event cb.context d.last_events))
          _ _
          (λ q. record {
            done = refl;
            last_events = refl;
            delay = refl;
            ran = λ key. ground (arith, times-append key cb.key d.ran);
          })
          (λ q. Goes-refl d))

run_started-ran :
    (cbs : List Callback) (now : ℕ) (key : Text) (d : Debouncer)
    → times key d ≤ times key (run_started cbs now d)
unfolding run_started
run_started-ran [] now key d = omega arith
run_started-ran (cb ∷ cbs) now key d =
    omega
      (arith, run_started-ran cbs now key (call_back cb now d), (call_back-Goes cb now d).ran key)

call_back-runs :
    (cb : Callback) (now : ℕ) (d : Debouncer)
    → d.done ≡ false
    → leb d.delay (now - last_event cb.context d.last_events) ≡ true
    → times cb.key d < times cb.key (call_back cb now d)
unfolding call_back
call_back-runs cb now d e q = ground (arith, e, q, times-append cb.key cb.key d.ran, ==_refl cb.key)

-- A callback whose key has been quiet runs, whichever callbacks come before it.
pub run_started-runs :
    (cbs : List Callback) (now : ℕ) (cb : Callback) (d : Debouncer)
    → Memᴰ cb cbs
    → d.done ≡ false
    → leb d.delay (now - last_event cb.context d.last_events) ≡ true
    → times cb.key d < times cb.key (run_started cbs now d)
unfolding run_started
run_started-runs [] now cb d m e q = absurd (Memᴰ.not-nil m)
run_started-runs (x ∷ cbs) now cb d m e q =
    let g = call_back-Goes x now d in
    elim (Memᴰ.cases_cons m) [
      | inl s ↦ omega (
        arith,
        run_started-ran cbs now cb.key (call_back x now d),
        subst (λ y. times cb.key d < times cb.key (call_back y now d)) s
            (call_back-runs cb now d e q),
      )
      | inr n ↦ omega (
        arith,
        g.ran cb.key,
        run_started-runs cbs now cb (call_back x now d) n (g.done ∙ e) (
            ap₂ (λ delay events. leb delay (now - last_event cb.context events)) g.delay
              g.last_events
            ∙ q),
      )
    ]
