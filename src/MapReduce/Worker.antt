-- ===== src/MapReduce/Worker.antt =====
-- project-3/src/mapreduce/worker.go: `RunWorker` and the handlers `DoJob` and `Shutdown`, by the counters
-- `nRPC` and `nJobs`. What `DoJob` does with files is in MapReduce/Run. The loop is one goroutine, a
-- handler runs in that of its connection, and `call` of common.go makes a connection for each RPC.
pub mod Counts
pub mod Reports
use dsystem_homework.Base.{
  ℕ, zero, suc, ◌+◌, Bool, true, false, List, [], ◌∷◌, ◌++◌, Option, none, some, ℤ, pos, ◌-ℤ◌,
  int_beq, pos_part, neg_part, sub_ℕ, if◌then◌else◌,
}

-- Where the loop of `RunWorker` stands: at its test, in `Accept`, before it counts the job, or behind
-- the loop.
pub data Place : Type 0 where
  at_test at_accept at_count at_end : Place

pub record Worker : Type 0 where
  pub n_rpc : ℤ
  pub n_jobs : ℤ
  pub place : Place
  pub waiting : ℕ  -- connections whose RPC no handler has served

unfoldable pub new_worker : ℤ → Worker
new_worker n_rpc = record { n_rpc = n_rpc; n_jobs = pos 0; place = at_test; waiting = 0 }

-- What happens next: a step of the loop, in `Accept` with or without an error, or an RPC that a
-- handler serves.
pub data Event : Type 0 where
  loops : Bool → Event
  does_job : Event
  shuts_down : Event

abbrev pub inc : ℤ → ℤ
inc n = sub_ℕ (suc (pos_part n)) (neg_part n)

-- A step of the loop.
loop_at : Place → Bool → Worker → Worker
loop_at at_test ok w =
    if int_beq w.n_rpc (pos 0) then record w { place = at_end } else record w { place = at_accept }
loop_at at_accept true w = record w {
  n_rpc = w.n_rpc -ℤ pos 1;
  waiting = suc w.waiting;
  place = at_count;
}
loop_at at_accept false w = record w { place = at_end }
loop_at at_count ok w = record w { n_jobs = inc w.n_jobs; place = at_test }
loop_at at_end ok w = w

-- `DoJob` leaves the counters alone.
handle_job : ℕ → Worker → Worker
handle_job zero w = w
handle_job (suc waiting) w = record w { waiting = waiting }

-- `Shutdown`, with the number that it reports.
handle_shutdown : ℕ → Worker → Worker × List ℤ
handle_shutdown zero w = (w, [])
handle_shutdown (suc waiting) w =
    (record w { n_rpc = pos 1; n_jobs = w.n_jobs -ℤ pos 1; waiting = waiting }, w.n_jobs ∷ [])

-- An event at a worker, with what it reports. An RPC that has no connection is not served.
unfoldable pub step : Event → Worker → Worker × List ℤ
unfolding loop_at handle_job handle_shutdown
step (loops ok) w = (loop_at w.place ok w, [])
step does_job w = (handle_job w.waiting w, [])
step shuts_down w = handle_shutdown w.waiting w

unfoldable pub run : List Event → Worker → Worker × List ℤ
run [] w = (w, [])
run (e ∷ events) w =
    let (next, told) = step e w in let (last, later) = run events next in (last, told ++ later)

-- `KillWorkers` of master.go: of the workers that answer their Shutdown, the numbers that they report.
unfoldable pub kill_workers : List (Option ℤ) → List ℤ
kill_workers [] = []
kill_workers (none ∷ replies) = kill_workers replies
kill_workers (some n_jobs ∷ replies) = n_jobs ∷ kill_workers replies
