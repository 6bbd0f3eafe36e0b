-- ===== src/Process/Memory/Ids.antt =====
-- The identifiers that the manager of pkg/process/memory/manager.go gives out.
use skylark.Base.{
  ℕ, suc, ◌≡◌, refl, ap, ◌∙◌, true, false, List, [], ◌∷◌, Option, none, some, ok, err, arith, ◌==◌,
  ℕ_eq, ==_refl, Bool-cases, inl, inr, ◌≤◌,
}
use skylark.Base.Dict.{lookup, lookup-insert}
use skylark.Process.Memory.{
  Process, Manager, ResourceLimits, new, new_process, new_manager, get, not_found,
  set_default_limits,
}
use skylark.Text.{Text}

-- The calls that change a manager.
pub data Call : Type 0 where
  makes : (name : Text) → (args : List Text) → Call
  limits_to : ResourceLimits → Call

unfoldable pub call : Call → Manager → Manager
unfolding new set_default_limits
call (makes name args) m = (new name args m).1
call (limits_to l) m = set_default_limits l m

unfoldable pub calls : List Call → Manager → Manager
unfolding call
calls [] m = m
calls (c ∷ cs) m = calls cs (call c m)

-- No process has an identifier that is yet to be given out.
abbrev Fresh : Manager → Type 0
Fresh m = (pid : ℕ) → m.next_pid ≤ pid → lookup pid m.processes ≡ none

call-Fresh : (c : Call) (m : Manager) → Fresh m → Fresh (call c m)
unfolding call new set_default_limits
call-Fresh (makes name args) m f = λ pid h.
    lookup-insert m.next_pid pid (new_process m.next_pid name args m.default_limit) m.processes
    ∙ rw (other pid h) (f pid (omega (arith, h)))
  where
    other : (pid : ℕ) → suc m.next_pid ≤ pid → (m.next_pid == pid) ≡ false
    other pid h = ground (arith, h)
call-Fresh (limits_to l) m f = f

calls-Fresh : (cs : List Call) (m : Manager) → Fresh m → Fresh (calls cs m)
unfolding calls
calls-Fresh [] m f = f
calls-Fresh (c ∷ cs) m f = calls-Fresh cs (call c m) (call-Fresh c m f)

-- A process that is found stays so, whatever the manager makes after it.
get-call :
    (c : Call) (m : Manager) (pid : ℕ) (p : Process)
    → Fresh m
    → lookup pid m.processes ≡ some p
    → lookup pid (call c m).processes ≡ some p
unfolding call new set_default_limits
get-call (makes name args) m pid p f h =
    lookup-insert m.next_pid pid (new_process m.next_pid name args m.default_limit) m.processes
    ∙ elim (Bool-cases (m.next_pid == pid)) [ inl e ↦ absurd (taken e) | inr e ↦ rw e h ]
  where
    taken : (m.next_pid == pid) ≡ true → ⊥
    taken e = cc (f pid (ground (arith, e)), h)
get-call (limits_to l) m pid p f h = h

get-calls :
    (cs : List Call) (m : Manager) (pid : ℕ) (p : Process)
    → Fresh m
    → lookup pid m.processes ≡ some p
    → lookup pid (calls cs m).processes ≡ some p
unfolding calls
get-calls [] m pid p f h = h
get-calls (c ∷ cs) m pid p f h =
    get-calls cs (call c m) pid p (call-Fresh c m f) (get-call c m pid p f h)

new_manager-Fresh : Fresh new_manager
unfolding lookup
new_manager-Fresh = λ pid h. refl

get-lookup :
    (pid : ℕ) (m : Manager) (found : Option Process)
    → lookup pid m.processes ≡ found
    → get pid m ≡ elim found [ none ↦ err not_found | some p ↦ ok p ]
unfolding get
get-lookup pid m found h = ap (λ o. elim o [ none ↦ err not_found | some p ↦ ok p ]) h

lookup-new :
    (name : Text) (args : List Text) (m : Manager)
    → lookup m.next_pid (new name args m).1.processes ≡ some (new name args m).0
unfolding new
lookup-new name args m =
    lookup-insert m.next_pid m.next_pid _ m.processes ∙ rw (==_refl m.next_pid) refl

-- A process that the manager makes has an identifier that no process had, and is found under it ever
-- after, unchanged by what the manager makes before and after it.
get-calls-new :
    (before after : List Call) (name : Text) (args : List Text)
    → let m = calls before new_manager in
      (get m.next_pid m ≡ err not_found)
      × (get m.next_pid (calls after (new name args m).1) ≡ ok (new name args m).0)
unfolding call
get-calls-new before after name args =
    let m = calls before new_manager in
    let fresh = calls-Fresh before new_manager new_manager-Fresh in
    (
      get-lookup m.next_pid m none (fresh m.next_pid (omega arith)),
      get-lookup m.next_pid (calls after (new name args m).1) (some (new name args m).0) (
          get-calls after (new name args m).1 m.next_pid (new name args m).0
            (call-Fresh (makes name args) m fresh) (lookup-new name args m)),
    )
