-- ===== src/MapReduce/Run/Answers.antt =====
-- What a run of project-3/src/mapreduce/mapreduce.go leaves in its result.
use dsystem_homework.Base.{
  ℕ, zero, suc, ◌+◌, ◌<◌, ◌≤◌, ◌≡◌, refl, sym, ap, ◌∙◌, inl, inr, List, [], ◌∷◌, length, get_elem?,
  get_elem?_lt, map, In, here, there, All, some, Dict, lookup, insert, lookup-insert, nat_key,
  bytes_key, arith, nat_beq, nat_beq_iff, Bool-cases, subst, bind_some,
}
use dsystem_homework.MapReduce.Text.{Text, sort_strings}
use dsystem_homework.MapReduce.Text.Sorting.{Ascending, sort_strings-Ascending}
use dsystem_homework.MapReduce.Split.{split}
use dsystem_homework.MapReduce.Jobs.{partition}
use dsystem_homework.MapReduce.Jobs.Gather.{values_in}
use dsystem_homework.MapReduce.Master.{jobs_from}
use dsystem_homework.MapReduce.Files.{
  Pair, Files, reduced, create_splits, split_input, keys, merge, sorted_pairs, print_pairs, do_all,
  do_reduce_job,
}
use dsystem_homework.MapReduce.Files.Keys.{lookup-sort_keys, keys-sorted_pairs}
use dsystem_homework.MapReduce.Files.Maps.{do_maps-AfterMaps}
use dsystem_homework.MapReduce.Files.Reduces.{do_reduces-AfterReduces}
use dsystem_homework.MapReduce.Files.Merges.{
  answer, merged, merge_files-merged, merged-Distinct, lookup-merged,
}
use dsystem_homework.MapReduce.Run.{do_job, run, run_single}

lookup-create_splits_below :
    (m j : ℕ) (texts : List Text) (files : Dict ℕ Text)
    → j < m
    → lookup j (create_splits m texts files) ≡ lookup j files
unfolding create_splits
lookup-create_splits_below m j [] files below = refl
lookup-create_splits_below m j (text ∷ texts) files below =
    lookup-create_splits_below (suc m) j texts (insert m text files) (omega arith)
    ∙ lookup-insert m j text files
    ∙ ground arith

lookup-create_splits :
    (m k : ℕ) (texts : List Text) (files : Dict ℕ Text) {t : Text}
    → get_elem? texts k ≡ some t
    → lookup (m + k) (create_splits m texts files) ≡ some t
unfolding create_splits
lookup-create_splits m k [] files at_k = cc
lookup-create_splits m zero (text ∷ texts) files at_k =
    lookup-create_splits_below (suc m) (m + 0) texts (insert m text files) (omega arith)
    ∙ lookup-insert m (m + 0) text files
    ∙ ground arith
lookup-create_splits m (suc k) (text ∷ texts) files at_k =
    ap (λ i. lookup i (create_splits (suc m) texts (insert m text files))) (omega arith)
    ∙ lookup-create_splits (suc m) k texts (insert m text files) at_k

-- Each of the first `n` jobs is among these, and no other.
pub record AreJobs (n : ℕ) (jobs : List ℕ) : Type 0 where
  pub in_range : All (λ j. j < n) jobs
  pub complete : (j : ℕ) → j < n → In j jobs

jobs_from-in_range : (i left n : ℕ) → i + left ≤ n → All (λ j. j < n) (jobs_from i left)
unfolding jobs_from
jobs_from-in_range i zero n fits = tt
jobs_from-in_range i (suc left) n fits =
    (omega arith, jobs_from-in_range (suc i) left n (omega arith))

jobs_from-complete : (j i left : ℕ) → i ≤ j → j < i + left → In j (jobs_from i left)
unfolding jobs_from
jobs_from-complete j i zero low high = absurd (omega arith)
jobs_from-complete j i (suc left) low high = elim (Bool-cases (nat_beq i j)) [
  | inl same ↦ subst (λ k. In k (i ∷ jobs_from (suc i) left)) ((nat_beq_iff i j).0 same) here
  | inr later ↦ there (jobs_from-complete j (suc i) left (ground arith) (omega arith))
]

pub jobs_from-AreJobs : (n : ℕ) → AreJobs n (jobs_from 0 n)
jobs_from-AreJobs n = record {
  in_range = jobs_from-in_range 0 n n (omega arith);
  complete = λ j below. jobs_from-complete j 0 n (omega arith) (omega arith);
}

map-map :
    (f : List Pair → List Pair) (g : Text → List Pair) (xs : List Text)
    → map (λ x. f (g x)) xs ≡ map f (map g xs)
map-map f g [] = refl
map-map f g (x ∷ xs) = ap (◌∷◌ (f (g x))) (map-map f g xs)

module _ (ihash : Text → ℕ) (map_func : Text → List Pair)
    (reduce_func : Text → List Text → Text) where
  -- The pairs that a run prints when `Split` has made these files.
  unfoldable pub outcome : ℕ → List Text → Dict Text Text
  outcome n_reduce texts =
      let kvs = merged reduce_func ihash n_reduce (map map_func texts) 0 n_reduce [] in
      sorted_pairs kvs (sort_strings (keys kvs))

  -- A run in which the workers have done every map job before the reduce jobs, and every reduce job,
  -- prints the outcome, whatever the order and however often they did them.
  pub run-outcome :
      (n_map n_reduce : ℕ) (maps reduces : List ℕ) (fs : Files) {input : Text} {texts : List Text}
      → fs.input ≡ some input
      → split n_map input ≡ some texts
      → length texts ≡ n_map
      → AreJobs n_map maps
      → AreJobs n_reduce reduces
      → (after : Files) × (run ihash map_func reduce_func n_map n_reduce maps reduces fs
          ≡ some after)
        × (after.result ≡ some (print_pairs (outcome n_reduce texts)))
  unfolding run do_job split_input merge outcome
  run-outcome n_map n_reduce maps reduces fs {input} {texts} read cut all_made map_jobs
        reduce_jobs =
      let cut_fs = record fs { map_files = create_splits 0 texts fs.map_files } in
      let mapped =
        do_maps-AfterMaps ihash n_reduce map_func texts maps cut_fs
          (subst (λ n. All (λ j. j < n) maps) (sym all_made) map_jobs.in_range)
          (λ j t at_j.
            ap (λ i. lookup i (create_splits 0 texts fs.map_files)) (omega arith)
            ∙ lookup-create_splits 0 j texts fs.map_files at_j) in
      let done =
        do_reduces-AfterReduces ihash n_reduce map_func reduce_func texts reduces mapped.after
          reduce_jobs.in_range
          (λ j r t at_j lt.
            mapped.parts j (inl (map_jobs.complete j (rw (← all_made) (get_elem?_lt texts j at_j))))
              t r at_j lt) in
      let reduces_run =
        subst (λ n. do_all (do_reduce_job reduce_func n) reduces mapped.after ≡ some done.after)
          all_made done.run in
      let merges_run =
        merge_files-merged reduce_func ihash n_reduce (map map_func texts) n_reduce 0
          done.after.merge_files []
          (λ r low high.
            done.outputs r (inl (reduce_jobs.complete r (omega arith)))
            ∙ ap (λ parts. some (reduced reduce_func parts))
                (map-map (partition ihash n_reduce r) map_func texts)) in
      let written = record done.after { result = some (print_pairs (outcome n_reduce texts)) } in
      (
        written,
        bind_some _ (bind_some _ read (bind_some _ cut refl))
            (bind_some _ mapped.run (bind_some _ reduces_run (bind_some _ merges_run refl))),
        refl,
      )

  pub outcome-answer :
      (n_reduce : ℕ) (texts : List Text) (k : Text)
      → 0 < n_reduce
      → lookup k (outcome n_reduce texts) ≡ answer reduce_func k (values_in k (map map_func texts))
  unfolding outcome
  outcome-answer n_reduce texts k some_jobs =
      let results = map map_func texts in
      lookup-sort_keys k (merged reduce_func ihash n_reduce results 0 n_reduce [])
      ∙ lookup-merged reduce_func ihash n_reduce results k some_jobs

  pub outcome-Ascending :
      (n_reduce : ℕ) (texts : List Text) → Ascending (keys (outcome n_reduce texts))
  unfolding outcome
  outcome-Ascending n_reduce texts =
      let kvs = merged reduce_func ihash n_reduce (map map_func texts) 0 n_reduce [] in
      rw (keys-sorted_pairs kvs (sort_strings (keys kvs))) (
        sort_strings-Ascending (keys kvs)
          (merged-Distinct reduce_func ihash n_reduce (map map_func texts) n_reduce 0 [] tt))

  -- When `Split` makes a file for every map job, there is a reduce job, and the workers do every map
  -- job before the reduce jobs and every reduce job, in any order and any number of times: `Run` ends
  -- with a result that lists its keys in ascending order, each once, and a key is listed with what the
  -- reduce function gives for all values that the map function gives for it, in the order of the files,
  -- and is not listed if there are none.
  pub run_answers :
      (n_map n_reduce : ℕ) (maps reduces : List ℕ) (fs : Files) {input : Text} {texts : List Text}
      (k : Text)
      → fs.input ≡ some input
      → split n_map input ≡ some texts
      → length texts ≡ n_map
      → 0 < n_reduce
      → AreJobs n_map maps
      → AreJobs n_reduce reduces
      → (after : Files) × (run ihash map_func reduce_func n_map n_reduce maps reduces fs
          ≡ some after)
        × (after.result ≡ some (print_pairs (outcome n_reduce texts)))
        × Ascending (keys (outcome n_reduce texts))
        × (lookup k (outcome n_reduce texts)
            ≡ answer reduce_func k (values_in k (map map_func texts)))
  run_answers n_map n_reduce maps reduces fs {input} {texts} k read cut all_made some_jobs ms rs =
      let (after, ran, printed) =
        run-outcome n_map n_reduce maps reduces fs read cut all_made ms rs in
      (
        after,
        ran,
        printed,
        outcome-Ascending n_reduce texts,
        outcome-answer n_reduce texts k some_jobs,
      )

  -- When `Split` makes a file for every map job, and the workers do every map job before the reduce
  -- jobs and every reduce job, in any order and any number of times, `Run` and `RunSingle` both end,
  -- with the same result.
  pub run-run_single :
      (n_map n_reduce : ℕ) (maps reduces : List ℕ) (fs : Files) {input : Text} {texts : List Text}
      → fs.input ≡ some input
      → split n_map input ≡ some texts
      → length texts ≡ n_map
      → AreJobs n_map maps
      → AreJobs n_reduce reduces
      → (after single : Files) × (run ihash map_func reduce_func n_map n_reduce maps reduces fs
          ≡ some after)
        × (run_single ihash map_func reduce_func n_map n_reduce fs ≡ some single)
        × (after.result ≡ single.result)
  unfolding run run_single do_job
  run-run_single n_map n_reduce maps reduces fs read cut all_made ms rs =
      let (after, ran, printed) =
        run-outcome n_map n_reduce maps reduces fs read cut all_made ms rs in
      let (single, ran', printed') =
        run-outcome n_map n_reduce (jobs_from 0 n_map) (jobs_from 0 n_reduce) fs read cut all_made
          (jobs_from-AreJobs n_map) (jobs_from-AreJobs n_reduce) in
      (after, single, ran, ran', printed ∙ sym printed')
