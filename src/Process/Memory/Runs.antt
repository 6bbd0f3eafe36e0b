-- ===== src/Process/Memory/Runs.antt =====
-- The states that a process of pkg/process/memory/manager.go comes to.
use skylark.Base.{
  ℕ, ◌-◌, ◌≡◌, refl, true, false, Bool, not, ◌&&◌, List, [], ◌∷◌, Option, none, some, ◌⊎◌, inl, inr,
  ok, err, ltb, if◌then◌else◌, if-cases,
}
use skylark.Base.Int.{pos, negsuc, ltb_ℤ}
use skylark.Process.Memory.{
  Process, ResourceLimits, Done, validate_limits, set_timer, start, start_valid, expire, was_killed,
  wait, signal, set_limits, set_limits_valid, new_process,
}
use skylark.Text.{Text}

-- The steps of a process: its methods, the callback of the timer that it holds, and those of timers
-- that it has forgotten.
pub data Step : Type 0 where
  starts waits expires expires_late : Step
  signals : (is_kill : Bool) → Step
  sets_limits : ResourceLimits → Step

-- The callback runs if it is yet to run.
unfoldable expire_held : Option Bool → Process → Process
unfolding expire
expire_held (some true) p = expire (record p { timer = some false })
expire_held (some false) p = p
expire_held none p = p

unfoldable expire_stale : ℕ → Process → Process
expire_stale stale p = if ltb 0 stale then expire (record p { stale = stale - 1 }) else p

unfoldable pub step : Step → Process → Process
unfolding start wait signal set_limits expire_held expire_stale
step starts p = (start p).1
step waits p = (wait p).1
step expires p = expire_held p.timer p
step expires_late p = expire_stale p.stale p
step (signals is_kill) p = (signal is_kill p).1
step (sets_limits l) p = (set_limits l p).1

unfoldable pub steps : List Step → Process → Process
steps [] p = p
steps (s ∷ ss) p = steps ss (step s p)

-- A process runs with valid limits only, and its exit code is 0, or -1 for a killed one.
pub record IsSound (p : Process) : Type 0 where
  pub limited : p.running ≡ true → validate_limits p.limits ≡ ok tt
  pub exited : (p.exit_code ≡ pos 0) ⊎ (p.exit_code ≡ negsuc 0)

abbrev Of : Done × Process → Type 0
Of r = IsSound r.1

expire-IsSound : (p : Process) → IsSound p → IsSound (expire p)
unfolding expire
expire-IsSound p s =
    if-cases IsSound p.running _ _ (λ r. record { limited = λ h. cc; exited = inr refl }) (λ r. s)

expire_held-IsSound : (t : Option Bool) (p : Process) → IsSound p → IsSound (expire_held t p)
unfolding expire_held
expire_held-IsSound none p s = s
expire_held-IsSound (some false) p s = s
expire_held-IsSound (some true) p s =
    expire-IsSound _ (record { limited = s.limited; exited = s.exited })

expire_stale-IsSound : (n : ℕ) (p : Process) → IsSound p → IsSound (expire_stale n p)
unfolding expire_stale
expire_stale-IsSound n p s =
    if-cases IsSound (ltb 0 n) _ _
      (λ r. expire-IsSound _ (record { limited = s.limited; exited = s.exited })) (λ r. s)

set_timer-IsSound : (p : Process) → IsSound p → IsSound (set_timer p)
unfolding set_timer
set_timer-IsSound p s =
    if-cases IsSound (ltb_ℤ (pos 0) p.limits.max_cpu_time) _ _
      (λ r. record { limited = s.limited; exited = s.exited }) (λ r. s)

start_valid-IsSound :
    (p : Process) (d : Done)
    → IsSound p
    → validate_limits p.limits ≡ d
    → IsSound (start_valid p d).1
unfolding start_valid
start_valid-IsSound p (ok u) s e =
    set_timer-IsSound (record p { running = true }) (record { limited = λ h. e; exited = s.exited })
start_valid-IsSound p (err f) s e = s

set_limits_valid-IsSound :
    (l : ResourceLimits) (p : Process) (d : Done)
    → IsSound p
    → validate_limits l ≡ d
    → IsSound (set_limits_valid l p d).1
unfolding set_limits_valid
set_limits_valid-IsSound l p (ok u) s e = record { limited = λ h. e; exited = s.exited }
set_limits_valid-IsSound l p (err f) s e = s

step-IsSound : (t : Step) (p : Process) → IsSound p → IsSound (step t p)
unfolding step start wait signal set_limits
step-IsSound starts p s = if-cases Of p.running _ _ (λ r. s) (λ r. start_valid-IsSound p _ s refl)
step-IsSound waits p s =
    if-cases Of (not p.running && not (was_killed p.exit_code)) _ _ (λ r. s)
      (λ r.
        if-cases Of (was_killed p.exit_code) _ _
          (λ k. record { limited = λ h. cc; exited = s.exited })
          (λ k. record { limited = λ h. cc; exited = inl refl }))
step-IsSound expires p s = expire_held-IsSound p.timer p s
step-IsSound expires_late p s = expire_stale-IsSound p.stale p s
step-IsSound (signals is_kill) p s =
    if-cases Of (not p.running) _ _ (λ r. s)
      (λ r.
        if-cases IsSound is_kill _ _ (λ k. record { limited = λ h. cc; exited = inr refl })
          (λ k. s))
step-IsSound (sets_limits l) p s =
    if-cases Of p.running _ _ (λ r. s) (λ r. set_limits_valid-IsSound l p _ s refl)

steps-IsSound : (ss : List Step) (p : Process) → IsSound p → IsSound (steps ss p)
unfolding steps
steps-IsSound [] p s = s
steps-IsSound (t ∷ ss) p s = steps-IsSound ss (step t p) (step-IsSound t p s)

-- Whatever is done to a new process, it runs with valid limits only, and its exit code is 0 or -1,
-- even if the default limits that it was made with are not valid.
pub steps-new_process-IsSound :
    (id : ℕ) (name : Text) (args : List Text) (limits : ResourceLimits) (ss : List Step)
    → IsSound (steps ss (new_process id name args limits))
unfolding new_process
steps-new_process-IsSound id name args limits ss =
    steps-IsSound ss _ (record { limited = λ h. cc; exited = inl refl })

abbrev Killed : Process → Type 0
Killed p = p.exit_code ≡ negsuc 0

abbrev KilledBy : Done × Process → Type 0
KilledBy r = Killed r.1
