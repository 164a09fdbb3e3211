-- ===== src/MapReduce/Worker/Counts.antt =====
-- What the counters of a worker of project-3/src/mapreduce/worker.go count.
use dsystem_homework.Base.{
  ℕ, zero, suc, ◌+◌, ◌≤◌, ◌≡◌, refl, Bool, true, false, List, [], ◌∷◌, length, length-append, ℤ,
  pos, negsuc, pos_part, neg_part, arith,
}
use dsystem_homework.MapReduce.Worker.{
  Place, at_test, at_accept, at_count, at_end, Worker, new_worker, Event, loops, does_job,
  shuts_down, loop_at, handle_job, handle_shutdown, step, run,
}

-- The connections that the loop accepts.
abbrev pub accepted : Event → Worker → ℕ
accepted (loops true) w = elim w.place [ at_accept ↦ 1 | _ ↦ 0 ]
accepted _ w = 0

unfoldable pub accepts : List Event → Worker → ℕ
accepts [] w = 0
accepts (e ∷ events) w = accepted e w + accepts events (step e w).0

-- The loop accepts only with a number of RPCs left.
abbrev IsCounting : Worker → Type 0
IsCounting w = (neg_part w.n_rpc ≡ 0) × (w.place ≡ at_accept → 1 ≤ pos_part w.n_rpc)

abbrev HasPaid : Worker → ℕ → Worker → ℕ → Type 0
HasPaid w used w' told = IsCounting w' × (used + pos_part w'.n_rpc ≤ pos_part w.n_rpc + told)

at_place : Place → ℤ → ℤ → ℕ → Worker
at_place place n_rpc n_jobs waiting = record {
  n_rpc = n_rpc;
  n_jobs = n_jobs;
  place = place;
  waiting = waiting;
}

loop_at-HasPaid :
    (place : Place) (ok : Bool) (n_rpc n_jobs : ℤ) (waiting : ℕ)
    → IsCounting (at_place place n_rpc n_jobs waiting)
    → HasPaid
        (at_place place n_rpc n_jobs waiting)
        (accepted (loops ok) (at_place place n_rpc n_jobs waiting))
        (loop_at place ok (at_place place n_rpc n_jobs waiting))
        0
unfolding loop_at at_place
loop_at-HasPaid place ok (negsuc n) n_jobs waiting good = absurd (omega (arith, good.0))
loop_at-HasPaid at_test true (pos n) n_jobs waiting good = ground arith
loop_at-HasPaid at_test false (pos n) n_jobs waiting good = ground arith
loop_at-HasPaid at_accept true (pos n) n_jobs waiting good =
    let some_left = good.1 refl in ground arith
loop_at-HasPaid at_accept false (pos n) n_jobs waiting good = ground arith
loop_at-HasPaid at_count true (pos n) n_jobs waiting good = ground arith
loop_at-HasPaid at_count false (pos n) n_jobs waiting good = ground arith
loop_at-HasPaid at_end true (pos n) n_jobs waiting good = ground arith
loop_at-HasPaid at_end false (pos n) n_jobs waiting good = ground arith

handle_job-HasPaid :
    (waiting : ℕ) (w : Worker) → IsCounting w → HasPaid w 0 (handle_job waiting w) 0
unfolding handle_job
handle_job-HasPaid zero w good = (good, omega arith)
handle_job-HasPaid (suc waiting) w good = (good, omega arith)

handle_shutdown-HasPaid :
    (waiting : ℕ) (w : Worker)
    → IsCounting w
    → HasPaid w 0 (handle_shutdown waiting w).0 (length (handle_shutdown waiting w).1)
unfolding handle_shutdown
handle_shutdown-HasPaid zero w good = (good, omega arith)
handle_shutdown-HasPaid (suc waiting) w good = ((refl, λ at. omega arith), omega arith)

step-HasPaid :
    (e : Event) (w : Worker)
    → IsCounting w
    → HasPaid w (accepted e w) (step e w).0 (length (step e w).1)
unfolding step at_place
step-HasPaid (loops ok) w good = loop_at-HasPaid w.place ok w.n_rpc w.n_jobs w.waiting good
step-HasPaid does_job w good = handle_job-HasPaid w.waiting w good
step-HasPaid shuts_down w good = handle_shutdown-HasPaid w.waiting w good

accepts-run :
    (events : List Event) (w : Worker)
    → IsCounting w
    → accepts events w ≤ pos_part w.n_rpc + length (run events w).1
unfolding accepts run
accepts-run [] w good = omega arith
accepts-run (e ∷ events) w good =
    let (next, paid) = step-HasPaid e w good in
    omega (
      arith,
      paid,
      accepts-run events (step e w).0 next,
      length-append (step e w).1 (run events (step e w).0).1,
    )

-- Whatever happens at a worker that is started for `n` RPCs, it accepts at most `n` connections and one
-- more for each Shutdown that is served.
pub accepts_bounded :
    (n : ℕ) (events : List Event)
    → accepts events (new_worker (pos n)) ≤ n + length (run events (new_worker (pos n))).1
unfolding new_worker
accepts_bounded n events = accepts-run events (new_worker (pos n)) (refl, λ at. cc)
