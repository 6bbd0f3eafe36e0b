-- ===== src/Worker/Pool.antt =====
-- pkg/worker/concrete/pool.go. The goroutines of the pool, of its queue wrappers and of its workers,
-- take turns: an action is what one of them does between two waits. The queue size is at least 1, so
-- that a send on a channel is a step of its own, and callers do not close the channels they are given.
pub mod Counted
use skylark.Base.{
  zero, suc, ℕ, List, Bool, [], Option, ◌∷◌, false, none, if◌then◌else◌, some, true, not, ◌&&◌, ◌+◌,
  ◌||◌, ◌++◌, ltb, ◌%◌, get_elem?, length, ◌-◌, all,
}

-- The two counters of finished jobs and the one of queued jobs are of type uint64.
abbrev pub wrap : ℕ
wrap = 18446744073709551616

-- The channel that `Queue` returns, and the job that its goroutine has taken from it and not passed
-- on; if the goroutine has returned, that job is lost.
pub record Wrapper (Job : Type 0) : Type 0 where
  pub channel : List Job
  pub holding : Option Job
  pub returned : Bool

pub data Worker (Job : Type 0) : Type 0 where
  idle : Worker Job
  busy : Job → Worker Job
  stopped : Worker Job

pub record Pool (Job : Type 0) : Type 0 where
  pub queue_size : ℕ
  pub workers : List (Worker Job)
  pub wrappers : List (Wrapper Job)
  pub job_queue : List Job
  pub done : Bool
  pub queue_closed : Bool
  pub processed_jobs : ℕ
  pub failed_jobs : ℕ
  pub queued_jobs : ℕ

-- What a goroutine does: a caller opens a wrapper or sends a job to one; a wrapper takes a job, passes
-- it on, or returns; a worker receives a job, finishes it, or stops; `Stop` closes `done`, and then
-- the job queue.
pub data Action (Job : Type 0) : Type 0 where
  opens : Action Job
  sends : (i : ℕ) → Job → Action Job
  takes passes returns : (i : ℕ) → Action Job
  receives leaves : (k : ℕ) → Action Job
  finishes : (k : ℕ) → (success : Bool) → Action Job
  stops closes : Action Job

abbrev pub set_at : {A : Type 0} → ℕ → A → List A → List A
set_at i new [] = []
set_at zero new (x ∷ xs) = new ∷ xs
set_at (suc i) new (x ∷ xs) = x ∷ set_at i new xs

module _ {Job : Type 0} where
  abbrev pub repeat : ℕ → List (Worker Job)
  repeat zero = []
  repeat (suc n) = idle ∷ repeat n

  unfoldable pub new_pool : (workers queue_size : ℕ) → Pool Job
  new_pool workers queue_size = record {
    queue_size = queue_size;
    workers = repeat workers;
    wrappers = [];
    job_queue = [];
    done = false;
    queue_closed = false;
    processed_jobs = 0;
    failed_jobs = 0;
    queued_jobs = 0;
  }

  abbrev pub fresh_wrapper : Wrapper Job
  fresh_wrapper = record { channel = []; holding = none; returned = false }

  -- ch <- job
  unfoldable pub send : ℕ → Job → Wrapper Job → Pool Job → Option (Pool Job)
  send i j w p =
      if not w.returned && ltb (length w.channel) p.queue_size
      then some (record p {
        wrappers = set_at i (record w { channel = w.channel ++ (j ∷ []) }) p.wrappers;
      })
      else none

  -- case j, ok := <-ch, where there is a job and none is in hand
  unfoldable pub take_from : ℕ → Wrapper Job → List Job → Option Job → Pool Job → Option (Pool Job)
  take_from i w (j ∷ rest) none p = some (record p {
    wrappers = set_at i (record w { channel = rest; holding = some j }) p.wrappers;
    queued_jobs = (p.queued_jobs + 1) % wrap;
  })
  take_from i w ch held p = none

  unfoldable pub take_job : ℕ → Wrapper Job → Pool Job → Option (Pool Job)
  unfolding take_from
  take_job i w p = if w.returned then none else take_from i w w.channel w.holding p

  -- case p.jobQueue <- j, where the queue has room
  unfoldable pub pass_held : ℕ → Wrapper Job → Option Job → Pool Job → Option (Pool Job)
  pass_held i w none p = none
  pass_held i w (some j) p = some (record p {
    wrappers = set_at i (record w { holding = none }) p.wrappers;
    job_queue = p.job_queue ++ (j ∷ []);
  })

  unfoldable pub pass_job : ℕ → Wrapper Job → Pool Job → Option (Pool Job)
  unfolding pass_held
  pass_job i w p =
      if not w.returned && ltb (length p.job_queue) p.queue_size && not p.queue_closed
      then pass_held i w w.holding p
      else none

  -- case <-p.done, in either select
  unfoldable pub return_wrapper : ℕ → Wrapper Job → Pool Job → Option (Pool Job)
  return_wrapper i w p =
      if p.done && not w.returned
      then some (record p { wrappers = set_at i (record w { returned = true }) p.wrappers })
      else none

  -- case job, ok := <-w.pool.jobQueue
  unfoldable pub receive_job : ℕ → Worker Job → List Job → Pool Job → Option (Pool Job)
  receive_job k idle (j ∷ rest) p =
      some (record p { workers = set_at k (busy j) p.workers; job_queue = rest })
  receive_job k w q p = none

  -- The job is done, and the counters tell how; `AddUint64(…, ^uint64(0))` takes 1 away.
  unfoldable pub finish_job : ℕ → Bool → Worker Job → Pool Job → Option (Pool Job)
  finish_job k success (busy j) p = some (record p {
    workers = set_at k idle p.workers;
    processed_jobs = if success then (p.processed_jobs + 1) % wrap else p.processed_jobs;
    failed_jobs = if success then p.failed_jobs else (p.failed_jobs + 1) % wrap;
    queued_jobs = (p.queued_jobs + (wrap - 1)) % wrap;
  })
  finish_job k success w p = none

  abbrev is_empty : List Job → Bool
  is_empty [] = true
  is_empty (j ∷ js) = false

  -- case <-w.pool.done, or a queue that is closed and empty
  unfoldable pub leave : ℕ → Worker Job → Pool Job → Option (Pool Job)
  leave k idle p =
      if p.done || (p.queue_closed && is_empty p.job_queue)
      then some (record p { workers = set_at k stopped p.workers })
      else none
  leave k w p = none

  -- close(p.done), which panics if it is closed
  unfoldable pub stop : Pool Job → Option (Pool Job)
  stop p = if p.done then none else some (record p { done = true })

  -- close(p.jobQueue), once all wrappers have returned
  unfoldable pub close_queue : Pool Job → Option (Pool Job)
  close_queue p =
      if p.done && all (λ (w : Wrapper Job). w.returned) p.wrappers && not p.queue_closed
      then some (record p { queue_closed = true })
      else none

  abbrev on : {A : Type 0} → Option A → (A → Option (Pool Job)) → Option (Pool Job)
  on none f = none
  on (some a) f = f a

  -- An action that cannot happen in a state, or panics there, gives `none`.
  unfoldable pub act : Action Job → Pool Job → Option (Pool Job)
  unfolding send take_job pass_job return_wrapper receive_job finish_job leave stop close_queue
  act opens p = some (record p { wrappers = p.wrappers ++ (fresh_wrapper ∷ []) })
  act (sends i j) p = on (get_elem? p.wrappers i) (λ w. send i j w p)
  act (takes i) p = on (get_elem? p.wrappers i) (λ w. take_job i w p)
  act (passes i) p = on (get_elem? p.wrappers i) (λ w. pass_job i w p)
  act (returns i) p = on (get_elem? p.wrappers i) (λ w. return_wrapper i w p)
  act (receives k) p = on (get_elem? p.workers k) (λ w. receive_job k w p.job_queue p)
  act (finishes k success) p = on (get_elem? p.workers k) (λ w. finish_job k success w p)
  act (leaves k) p = on (get_elem? p.workers k) (λ w. leave k w p)
  act stops p = stop p
  act closes p = close_queue p

  unfoldable pub act_all : List (Action Job) → Pool Job → Option (Pool Job)
  unfolding act
  act_all [] p = some p
  act_all (a ∷ actions) p = on (act a p) (act_all actions)
