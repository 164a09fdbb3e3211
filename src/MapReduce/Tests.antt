-- ===== src/MapReduce/Tests.antt =====
-- A run of one map job and one reduce job.
use dsystem_homework.Base.{
  ℕ, suc, ◌+◌, ◌≤◌, ◌≡◌, refl, Bool, leb, some, none, pos, length, true, false, List, [], ◌∷◌, map,
  arith, lookup, nat_key,
}
use dsystem_homework.MapReduce.Text.{Text, byte_length}
use dsystem_homework.MapReduce.Split.{split, split_loop, scan_lines, drop_cr}
use dsystem_homework.MapReduce.Files.{Files}
use dsystem_homework.MapReduce.Run.{run, run_single}
use dsystem_homework.MapReduce.Run.Parallel.{finished_run-run_single}
use dsystem_homework.MapReduce.WordCount.{map_func, reduce_func}
use dsystem_homework.MapReduce.Worker
use dsystem_homework.MapReduce.Worker.{Event, loops, shuts_down, new_worker, step}
use dsystem_homework.MapReduce.Worker.Counts.{accepts, accepts_bounded}
use dsystem_homework.MapReduce.Worker.Reports.{jobs, shutdown_counts_itself}
use dsystem_homework.MapReduce.Jobs.{KeyValue, partition, read_files}
use dsystem_homework.MapReduce.Jobs.Gather.{gathered, reduce_gets_all}
use dsystem_homework.MapReduce.Master.{
  takes_job, sees_start, hears, wants_map, calls_map, wants_reduce, calls_reduce, returned,
  from_register, from_map_done, from_reduce_done, System, start, init_map_reduce, jobs_from,
  run_worker, run_master, moves, masters, Reach, here, next,
}
use dsystem_homework.MapReduce.Master.Tally.{times}
use dsystem_homework.MapReduce.Master.Phases.{reduces_after_maps}

-- The first worker fails its map job, and the second does all.
finished_run : (s : System) × Reach (start 1 1) s
unfolding start init_map_reduce jobs_from run_worker run_master
finished_run = (
  _,
  next
      (next
        (next
          (next
            (next
              (next
                (next
                  (next
                    (next (next (next here (masters from_register)) (masters from_register))
                      (moves [] (wants_map ∷ []) wants_map takes_job refl))
                    (moves [] (wants_map ∷ []) (calls_map 0) (hears false) refl))
                  (moves (returned ∷ []) [] wants_map takes_job refl))
                (moves (returned ∷ []) [] (calls_map 0) (hears true) refl))
              (masters from_map_done))
            (moves (returned ∷ []) [] wants_map sees_start refl))
          (moves (returned ∷ []) [] wants_reduce takes_job refl))
        (moves (returned ∷ []) [] (calls_reduce 0) (hears true) refl))
      (masters from_reduce_done),
)

finishes : finished_run.0.master.finished ≡ true
unfolding finished_run
finishes = refl

reduces_after_maps_example : times 0 finished_run.0.did_map ≡ 1
unfolding finished_run
reduces_after_maps_example =
    reduces_after_maps 1 1 finished_run.0 0 finished_run.1 refl (omega arith)

-- Two splits with three pairs, and two reduce jobs.
abbrev results : List (List (KeyValue ℕ ℕ))
results =
    (record { key = 4; value = 1 } ∷ record { key = 3; value = 1 } ∷ [])
    ∷ (record { key = 4; value = 2 } ∷ [])
    ∷ []

reduce_gets_all_example :
    gathered (lookup 4 (read_files (map (partition (λ k. k) 2 0) results) [])) ≡ 1 ∷ 2 ∷ []
reduce_gets_all_example = reduce_gets_all (λ k. k) 2 0 4 results

abbrev text : Text
text = 97 ∷ 10 ∷ []

abbrev files : Files
files = record {
  input = some text;
  map_files = [];
  reduce_files = [];
  merge_files = [];
  result = none;
}

abbrev is_letter : ℕ → Bool
is_letter c = leb 97 c

text_is_cut : split 1 text ≡ some (text ∷ [])
unfolding split split_loop scan_lines drop_cr byte_length
text_is_cut = refl

finished_run-run_single_example :
    (after single : Files) × (run byte_length
        (map_func is_letter)
        reduce_func
        1
        1
        finished_run.0.did_map
        finished_run.0.did_reduce
        files
      ≡ some after)
    × (run_single byte_length (map_func is_letter) reduce_func 1 1 files ≡ some single)
    × (after.result ≡ single.result)
unfolding start init_map_reduce jobs_from run_worker run_master finished_run
finished_run-run_single_example =
    finished_run-run_single byte_length (map_func is_letter) reduce_func 1 1 finished_run.0 files
      finished_run.1 refl (omega arith) refl text_is_cut refl

-- A worker for one RPC: its loop accepts a Shutdown and counts it.
abbrev worker_events : List Event
worker_events = loops true ∷ loops true ∷ loops true ∷ []

accepts_bounded_example :
    accepts worker_events (new_worker (pos 1))
    ≤ 1 + length (Worker.run worker_events (new_worker (pos 1))).1
accepts_bounded_example = accepts_bounded 1 worker_events

shutdown_counts_itself_example :
    (step shuts_down (Worker.run worker_events (new_worker (pos 1))).0).1
    ≡ pos (suc (jobs worker_events (new_worker (pos 1)))) ∷ []
unfolding Worker.run step new_worker
shutdown_counts_itself_example =
    shutdown_counts_itself (pos 1) worker_events (refl, (refl, (refl, tt))) refl refl
