-- ===== src/MapReduce/Master/Phases.antt =====
-- The phases of a run of project-3/src/mapreduce/master.go.
use dsystem_homework.Base.{
  ℕ, ◌+◌, ◌≤◌, ◌<◌, ◌≡◌, ◌∙◌, true, ltb, if◌then◌else◌, List, length, arith,
}
use dsystem_homework.MapReduce.Master.{jobs_from, Runner, System, start, Reach}
use dsystem_homework.MapReduce.Master.Tally.{
  tally, held_map, held_reduce, weigh, tally-length, is_job, times, tally-none, weigh-none,
  held_map_none, held_reduce_none, jobs_from-length, jobs_from-times, jobs_from-times_once,
}
use dsystem_homework.MapReduce.Master.Order.{Reach-Inv, start-Inv}

-- Jobs of which each is queued, held or done, and of which as many as there are are done.
all_done :
    (n k : ℕ) (queued did : List ℕ) (runners : List Runner) (held : (ℕ → ℕ) → Runner → ℕ)
    → ((w : Runner) → held (λ j. 1) w ≤ 0 → held (is_job k) w ≡ 0)
    → ((g : ℕ → ℕ)
        → tally g queued + weigh (held g) runners + tally g did ≡ tally g (jobs_from 0 n))
    → n ≤ length did
    → k < n
    → times k did ≡ 1
all_done n k queued did runners held none kept enough below =
    let total = kept (λ j. 1) in
    let none_queued : length queued ≤ 0 = omega (
      arith,
      total,
      tally-length queued,
      tally-length did,
      tally-length (jobs_from 0 n),
      jobs_from-length 0 n,
    ) in
    let none_held : weigh (held (λ j. 1)) runners ≤ 0 =
      omega (arith, total, tally-length did, tally-length (jobs_from 0 n), jobs_from-length 0 n) in
    omega (
      arith,
      kept (is_job k),
      tally-none (is_job k) queued none_queued,
      weigh-none (held (λ j. 1)) (held (is_job k)) runners none none_held,
      jobs_from-times k 0 n (omega arith) (omega arith),
    )

-- In every reachable state of the master and its workers, whichever of them fail, in which the reduce
-- jobs have been started: each map job has been answered as done, once.
pub reduces_after_maps :
    (n_map n_reduce : ℕ) (s : System) (k : ℕ)
    → Reach (start n_map n_reduce) s
    → s.master.reduce_start ≡ true
    → k < n_map
    → times k s.did_map ≡ 1
reduces_after_maps n_map n_reduce s k r on below =
    let inv = Reach-Inv r (start-Inv n_map n_reduce) in
    all_done n_map k _ s.did_map s.runners held_map (held_map_none (is_job k)) inv.maps
      (omega (arith, inv.started on, inv.maps_told)) below

-- In every reachable state in which the master has finished, whichever workers fail: each reduce job
-- has been answered as done, once.
pub finishes_after_reduces :
    (n_map n_reduce : ℕ) (s : System) (k : ℕ)
    → Reach (start n_map n_reduce) s
    → s.master.finished ≡ true
    → k < n_reduce
    → times k s.did_reduce ≡ 1
finishes_after_reduces n_map n_reduce s k r off below =
    let inv = Reach-Inv r (start-Inv n_map n_reduce) in
    all_done n_reduce k _ s.did_reduce s.runners held_reduce (held_reduce_none (is_job k))
      inv.reduces (omega (arith, inv.ended off, inv.reduces_told)) below

-- In every reachable state, whichever workers fail: each map job is in one place, on its channel, or
-- with a worker, or answered as done, once in all, and a number that is no map job is nowhere; and the
-- same holds of the reduce jobs.
pub jobs_conserved :
    (n_map n_reduce : ℕ) (s : System) (k : ℕ)
    → Reach (start n_map n_reduce) s
    → (times k s.master.map_jobs + weigh (held_map (is_job k)) s.runners + times k s.did_map
        ≡ (if ltb k n_map then 1 else 0))
      × (times k s.master.reduce_jobs
            + weigh (held_reduce (is_job k)) s.runners
            + times k s.did_reduce
          ≡ (if ltb k n_reduce then 1 else 0))
jobs_conserved n_map n_reduce s k r =
    let inv = Reach-Inv r (start-Inv n_map n_reduce) in
    (
      inv.maps (is_job k) ∙ jobs_from-times_once k n_map,
      inv.reduces (is_job k) ∙ jobs_from-times_once k n_reduce,
    )
