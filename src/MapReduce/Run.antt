-- ===== src/MapReduce/Run.antt =====
-- project-3/src/mapreduce/mapreduce.go: a whole run. `RunSingle` does the jobs in the order of their
-- numbers; `Run` leaves them to the master, whose workers do them by `DoJob` of worker.go.
pub mod Answers
pub mod Errors
pub mod Parallel
mod Tests
use dsystem_homework.Base.{
  ℕ, zero, suc, Key, List, [], ◌∷◌, Option, none, some, ◌>>=◌, Dict, lookup, delete, nat_key,
  pair_key,
}
use dsystem_homework.MapReduce.Text.{Text}
use dsystem_homework.MapReduce.Master.{jobs_from}
use dsystem_homework.MapReduce.Files.{
  Pair, Files, split_input, do_map_job, do_reduce_job, merge, do_all,
}

pub data Operation : Type 0 where
  map_operation reduce_operation : Operation

module _ (ihash : Text → ℕ) (map_func : Text → List Pair)
    (reduce_func : Text → List Text → Text) where
  -- `DoJob` of a worker, for a job of an operation and the number of jobs of the other operation.
  unfoldable pub do_job : Operation → ℕ → ℕ → Files → Option Files
  do_job map_operation other job fs = do_map_job ihash map_func other job fs
  do_job reduce_operation other job fs = do_reduce_job reduce_func other job fs

  -- `Run`, where the workers do these map jobs and then these reduce jobs, a job that is lost and done
  -- again more than once.
  unfoldable pub run : ℕ → ℕ → List ℕ → List ℕ → Files → Option Files
  run n_map n_reduce maps reduces fs = do
    cut ← split_input n_map fs
    mapped ← do_all (do_job map_operation n_reduce) maps cut
    reduced ← do_all (do_job reduce_operation n_map) reduces mapped
    merge n_reduce reduced

  unfoldable pub run_single : ℕ → ℕ → Files → Option Files
  run_single n_map n_reduce fs = do
    cut ← split_input n_map fs
    mapped ← do_all (do_map_job ihash map_func n_reduce) (jobs_from 0 n_map) cut
    reduced ← do_all (do_reduce_job reduce_func n_map) (jobs_from 0 n_reduce) mapped
    merge n_reduce reduced

-- `RemoveFile` ends the program when the file is not there.
unfoldable pub remove_file : {K V : Type 0} → ⦃key : Key K⦄ → K → Dict K V → Option (Dict K V)
remove_file name files = elim (lookup name files) [
  | none ↦ none
  | some v ↦ some (delete name files)
]

-- The inner loop of `CleanupFiles`, and its loops over jobs.
unfoldable pub remove_parts :
    ℕ → ℕ → ℕ → Dict (ℕ × ℕ) (List Pair) → Option (Dict (ℕ × ℕ) (List Pair))
remove_parts i j zero files = some files
remove_parts i j (suc left) files = do
  rest ← remove_file (i, j) files
  remove_parts i (suc j) left rest

unfoldable pub remove_maps : ℕ → ℕ → ℕ → Files → Option Files
remove_maps n_reduce i zero fs = some fs
remove_maps n_reduce i (suc left) fs = do
  splits ← remove_file i fs.map_files
  parts ← remove_parts i 0 n_reduce fs.reduce_files
  remove_maps n_reduce (suc i) left (record fs { map_files = splits; reduce_files = parts })

unfoldable pub remove_merges : ℕ → ℕ → Dict ℕ (List Pair) → Option (Dict ℕ (List Pair))
remove_merges i zero files = some files
remove_merges i (suc left) files = do rest ← remove_file i files; remove_merges (suc i) left rest

unfoldable pub cleanup_files : ℕ → ℕ → Files → Option Files
cleanup_files n_map n_reduce fs = do
  removed ← remove_maps n_reduce 0 n_map fs
  merges ← remove_merges 0 n_reduce removed.merge_files
  text ← removed.result
  some (record removed { merge_files = merges; result = none })
