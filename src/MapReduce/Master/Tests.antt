-- ===== src/MapReduce/Master/Tests.antt =====
-- Runs of project-3/src/mapreduce/master.go on which workers fail.
use dsystem_homework.Base.{◌+◌, ◌≡◌, refl, true, false, [], ◌∷◌, arith}
use dsystem_homework.MapReduce.Master.{
  takes_job, sees_start, hears, wants_map, calls_map, wants_reduce, calls_reduce, returned,
  from_register, from_map_done, from_reduce_done, System, start, init_map_reduce, jobs_from,
  run_worker, run_master, moves, masters, Reach, here, next,
}
use dsystem_homework.MapReduce.Master.Tally.{times, weigh, held_map, held_reduce, is_job}
use dsystem_homework.MapReduce.Master.Phases.{jobs_conserved}
use dsystem_homework.MapReduce.Master.Stalls.{returned_workers_stall}
use dsystem_homework.MapReduce.Master.Finishes.{can_finish}

-- The second worker finds no reduce job and returns, and then the first one fails.
stalled_run : (s : System) × Reach (start 1 1) s
unfolding start init_map_reduce jobs_from run_worker run_master
stalled_run = (
  _,
  next
      (next
        (next
          (next
            (next
              (next
                (next
                  (next (next (next here (masters from_register)) (masters from_register))
                    (moves [] (wants_map ∷ []) wants_map takes_job refl))
                  (moves [] (wants_map ∷ []) (calls_map 0) (hears true) refl))
                (masters from_map_done))
              (moves [] (wants_map ∷ []) wants_map sees_start refl))
            (moves (wants_reduce ∷ []) [] wants_map sees_start refl))
          (moves [] (wants_reduce ∷ []) wants_reduce takes_job refl))
        (moves (calls_reduce 0 ∷ []) [] wants_reduce takes_job refl))
      (moves [] (returned ∷ []) (calls_reduce 0) (hears false) refl),
)

stalled_later : (t : System) × Reach stalled_run.0 t
unfolding stalled_run run_master
stalled_later = (_, next here (masters from_reduce_done))

returned_workers_stall_example : stalled_later.0.master.finished ≡ false
unfolding stalled_run stalled_later weigh
returned_workers_stall_example =
    returned_workers_stall 1 1 stalled_run.0 stalled_later.0 stalled_run.1 refl (omega arith)
      stalled_later.1 (omega arith)

can_finish_example : (t : System) × Reach stalled_run.0 t × (t.master.finished ≡ true)
can_finish_example = can_finish 1 1 stalled_run.0 (omega arith) (omega arith) stalled_run.1

-- Three map jobs and one reduce job, of which the worker has taken one.
wider_run : (s : System) × Reach (start 3 1) s
unfolding start init_map_reduce jobs_from run_worker run_master
wider_run = (_, next (next here (masters from_register)) (moves [] [] wants_map takes_job refl))

jobs_conserved_example :
    (times 2 wider_run.0.master.map_jobs
        + weigh (held_map (is_job 2)) wider_run.0.runners
        + times 2 wider_run.0.did_map
      ≡ 1)
    × (times 2 wider_run.0.master.reduce_jobs
          + weigh (held_reduce (is_job 2)) wider_run.0.runners
          + times 2 wider_run.0.did_reduce
        ≡ 0)
jobs_conserved_example = jobs_conserved 3 1 wider_run.0 2 wider_run.1
