-- ===== src/Tests/Worker.antt =====
-- Runs of pkg/worker/concrete/pool.go.
use skylark.Base.{ℕ, ◌≡◌, refl, true, false, List, [], ◌∷◌, some, ◌%◌}
use skylark.Worker.Pool.{
  stop, Pool, Action, idle, opens, sends, takes, passes, receives, finishes, stops, returns, wrap,
  new_pool, act, act_all, send, take_job, take_from, pass_job, pass_held, return_wrapper,
  receive_job, finish_job, leave,
}
use skylark.Worker.Pool.Counted.{in_flight, act_all-in_flight}

-- One job is done, and another one is lost when the pool is stopped.
abbrev turns : List (Action ℕ)
turns =
    opens
    ∷ sends 0 7
    ∷ takes 0
    ∷ passes 0
    ∷ receives 0
    ∷ finishes 0 true
    ∷ sends 0 8
    ∷ takes 0
    ∷ stops
    ∷ returns 0
    ∷ []

abbrev after_turns : Pool ℕ
after_turns = record {
  queue_size = 2;
  workers = idle ∷ [];
  wrappers = record { channel = []; holding = some 8; returned = true } ∷ [];
  job_queue = [];
  done = true;
  queue_closed = false;
  processed_jobs = 1;
  failed_jobs = 0;
  queued_jobs = 1;
}

turns_taken : act_all turns (new_pool 1 2) ≡ some after_turns
unfolding act_all act send take_job take_from pass_job pass_held return_wrapper receive_job
    finish_job leave stop new_pool
turns_taken = refl

act_all-in_flight_example : 1 ≡ in_flight after_turns % wrap
act_all-in_flight_example = act_all-in_flight ℕ 1 2 turns after_turns turns_taken
