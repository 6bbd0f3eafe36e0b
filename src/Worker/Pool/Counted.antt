-- ===== src/Worker/Pool/Counted.antt =====
-- The counter of queued jobs of pkg/worker/concrete/pool.go.
use skylark.Base.{
  ℕ, zero, suc, ◌+◌, ◌%◌, ◌≡◌, refl, ap, subst, true, Bool, not, ◌&&◌, ◌||◌, List, [], ◌∷◌, ◌++◌,
  Option, none, some, get_elem?, length, length-append, all, ltb, arith, if-cases,
}
use skylark.Worker.Pool.{
  stop, close_queue, Pool, Wrapper, Worker, idle, busy, stopped, Action, opens, sends, takes,
  passes, returns, receives, leaves, finishes, stops, closes, wrap, set_at, repeat, new_pool,
  fresh_wrapper, send, take_from, take_job, pass_held, pass_job, return_wrapper, receive_job,
  finish_job, is_empty, leave, on, act, act_all,
}
use mathlib.Core.Option.{some-injective}

abbrev pub total : {A : Type 0} → (A → ℕ) → List A → ℕ
total f [] = 0
total f (x ∷ xs) = f x + total f xs

total-append :
    {A : Type 0} (f : A → ℕ) (xs ys : List A) → total f (xs ++ ys) ≡ total f xs + total f ys
total-append f [] ys = omega arith
total-append f (x ∷ xs) ys = omega (arith, total-append f xs ys)

total-set_at :
    {A : Type 0} (f : A → ℕ) (xs : List A) (i : ℕ) (old new : A)
    → get_elem? xs i ≡ some old
    → total f (set_at i new xs) + f old ≡ total f xs + f new
total-set_at f [] i old new h = absurd (cc h)
total-set_at f (x ∷ xs) zero old new h = omega (arith, ap f (some-injective x old h))
total-set_at f (x ∷ xs) (suc i) old new h = omega (arith, total-set_at f xs i old new h)

module _ {Job : Type 0} where
  abbrev in_hand : Option Job → ℕ
  in_hand none = 0
  in_hand (some j) = 1

  abbrev pub held : Wrapper Job → ℕ
  held w = in_hand w.holding

  abbrev pub running : Worker Job → ℕ
  running idle = 0
  running (busy j) = 1
  running stopped = 0

  -- The jobs that wrappers hold, that are in the queue, and that workers run.
  abbrev pub in_flight : Pool Job → ℕ
  in_flight p = total held p.wrappers + length p.job_queue + total running p.workers

  abbrev Counted : Pool Job → Type 0
  Counted p = p.queued_jobs ≡ in_flight p % wrap

  abbrev Kept : Option (Pool Job) → Type 0
  Kept none = Unit {0}
  Kept (some p) = Counted p

  on-Kept :
      {A : Type 0} (o : Option A) (f : A → Option (Pool Job))
      → ((a : A) → o ≡ some a → Kept (f a))
      → Kept (on o f)
  on-Kept none f h = tt
  on-Kept (some a) f h = h a refl

  send-Kept :
      (i : ℕ) (j : Job) (w : Wrapper Job) (p : Pool Job)
      → get_elem? p.wrappers i ≡ some w
      → Counted p
      → Kept (send i j w p)
  unfolding send
  send-Kept i j w p g c =
      if-cases Kept (not w.returned && ltb (length w.channel) p.queue_size) _ _
        (λ e. omega (
          arith,
          c,
          total-set_at held p.wrappers i w (record w { channel = w.channel ++ (j ∷ []) }) g,
        ))
        (λ e. tt)

  take_from-Kept :
      (i : ℕ) (w : Wrapper Job) (ch : List Job) (o : Option Job) (p : Pool Job)
      → w.holding ≡ o
      → get_elem? p.wrappers i ≡ some w
      → Counted p
      → Kept (take_from i w ch o p)
  unfolding take_from
  take_from-Kept i w (j ∷ rest) none p h g c = omega (
    arith,
    c,
    ap in_hand h,
    total-set_at held p.wrappers i w (record w { channel = rest; holding = some j }) g,
  )
  take_from-Kept i w (j ∷ rest) (some k) p h g c = tt
  take_from-Kept i w [] o p h g c = tt

  pass_held-Kept :
      (i : ℕ) (w : Wrapper Job) (o : Option Job) (p : Pool Job)
      → w.holding ≡ o
      → get_elem? p.wrappers i ≡ some w
      → Counted p
      → Kept (pass_held i w o p)
  unfolding pass_held
  pass_held-Kept i w none p h g c = tt
  pass_held-Kept i w (some j) p h g c = omega (
    arith,
    c,
    ap in_hand h,
    length-append p.job_queue (j ∷ []),
    total-set_at held p.wrappers i w (record w { holding = none }) g,
  )

  return_wrapper-Kept :
      (i : ℕ) (w : Wrapper Job) (p : Pool Job)
      → get_elem? p.wrappers i ≡ some w
      → Counted p
      → Kept (return_wrapper i w p)
  unfolding return_wrapper
  return_wrapper-Kept i w p g c =
      if-cases Kept (p.done && not w.returned) _ _
        (λ e. omega (arith, c, total-set_at held p.wrappers i w (record w { returned = true }) g))
        (λ e. tt)

  receive_job-Kept :
      (k : ℕ) (w : Worker Job) (q : List Job) (p : Pool Job)
      → p.job_queue ≡ q
      → get_elem? p.workers k ≡ some w
      → Counted p
      → Kept (receive_job k w q p)
  unfolding receive_job
  receive_job-Kept k idle (j ∷ rest) p h g c =
      omega (arith, c, ap length h, total-set_at running p.workers k idle (busy j) g)
  receive_job-Kept k idle [] p h g c = tt
  receive_job-Kept k (busy j) q p h g c = tt
  receive_job-Kept k stopped q p h g c = tt

  finish_job-Kept :
      (k : ℕ) (success : Bool) (w : Worker Job) (p : Pool Job)
      → get_elem? p.workers k ≡ some w
      → Counted p
      → Kept (finish_job k success w p)
  unfolding finish_job
  finish_job-Kept k success (busy j) p g c =
      omega (arith, c, total-set_at running p.workers k (busy j) idle g)
  finish_job-Kept k success idle p g c = tt
  finish_job-Kept k success stopped p g c = tt

  leave-Kept :
      (k : ℕ) (w : Worker Job) (p : Pool Job)
      → get_elem? p.workers k ≡ some w
      → Counted p
      → Kept (leave k w p)
  unfolding leave
  leave-Kept k idle p g c =
      if-cases Kept (p.done || (p.queue_closed && is_empty p.job_queue)) _ _
        (λ e. omega (arith, c, total-set_at running p.workers k idle stopped g)) (λ e. tt)
  leave-Kept k (busy j) p g c = tt
  leave-Kept k stopped p g c = tt

  act-Kept : (a : Action Job) (p : Pool Job) → Counted p → Kept (act a p)
  unfolding act take_job pass_job stop close_queue
  act-Kept opens p c = omega (arith, c, total-append held p.wrappers (fresh_wrapper ∷ []))
  act-Kept (sends i j) p c = on-Kept (get_elem? p.wrappers i) _ (λ w g. send-Kept i j w p g c)
  act-Kept (takes i) p c = on-Kept (get_elem? p.wrappers i) _ (λ w g.
      if-cases Kept w.returned _ _ (λ e. tt)
        (λ e. take_from-Kept i w w.channel w.holding p refl g c))
  act-Kept (passes i) p c = on-Kept (get_elem? p.wrappers i) _ (λ w g.
      if-cases Kept (not w.returned && ltb (length p.job_queue) p.queue_size && not p.queue_closed)
        _ _ (λ e. pass_held-Kept i w w.holding p refl g c) (λ e. tt))
  act-Kept (returns i) p c =
      on-Kept (get_elem? p.wrappers i) _ (λ w g. return_wrapper-Kept i w p g c)
  act-Kept (receives k) p c =
      on-Kept (get_elem? p.workers k) _ (λ w g. receive_job-Kept k w p.job_queue p refl g c)
  act-Kept (finishes k success) p c =
      on-Kept (get_elem? p.workers k) _ (λ w g. finish_job-Kept k success w p g c)
  act-Kept (leaves k) p c = on-Kept (get_elem? p.workers k) _ (λ w g. leave-Kept k w p g c)
  act-Kept stops p c = if-cases Kept p.done _ _ (λ e. tt) (λ e. c)
  act-Kept closes p c =
      if-cases Kept
        (p.done && all (λ (w : Wrapper Job). w.returned) p.wrappers && not p.queue_closed) _ _
        (λ e. c) (λ e. tt)

  act_all-Kept : (actions : List (Action Job)) (p : Pool Job) → Counted p → Kept (act_all actions p)
  unfolding act_all
  act_all-Kept [] p c = c
  act_all-Kept (a ∷ actions) p c =
      on-Kept (act a p) _ (λ q e. act_all-Kept actions q (subst Kept e (act-Kept a p c)))

module _ (Job : Type 0) where
  total-repeat : (n : ℕ) → total running (repeat {Job = Job} n) ≡ 0
  total-repeat zero = refl
  total-repeat (suc n) = omega (arith, total-repeat n)

  new_pool-Counted : (workers queue_size : ℕ) → Counted (new_pool {Job = Job} workers queue_size)
  unfolding new_pool
  new_pool-Counted workers queue_size = omega (arith, total-repeat workers)

  -- In every state that a pool comes to, in whatever order its goroutines take turns, the counter of
  -- queued jobs counts the jobs that a wrapper holds, that are in the queue and that a worker runs,
  -- those among them that are lost with a wrapper that returned when the pool was stopped.
  pub act_all-in_flight :
      (workers queue_size : ℕ) (actions : List (Action Job)) (p : Pool Job)
      → act_all actions (new_pool workers queue_size) ≡ some p
      → p.queued_jobs ≡ in_flight p % wrap
  act_all-in_flight workers queue_size actions p e =
      subst Kept e
        (act_all-Kept actions (new_pool workers queue_size) (new_pool-Counted workers queue_size))
