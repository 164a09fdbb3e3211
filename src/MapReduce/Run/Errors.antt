-- ===== src/MapReduce/Run/Errors.antt =====
-- A run of project-3/src/mapreduce/mapreduce.go whose `Split` makes fewer files than there are map jobs.
use dsystem_homework.Base.{
  ℕ, suc, ◌+◌, ◌<◌, ◌≤◌, ◌≡◌, refl, ap, ◌∙◌, inl, inr, List, [], ◌∷◌, length, In, here, there,
  Option, none, some, ◌>>=◌, bind_some, Dict, lookup, insert, lookup-insert, nat_key, arith,
  Option-cases,
}
use dsystem_homework.MapReduce.Text.{Text}
use dsystem_homework.MapReduce.Split.{split}
use dsystem_homework.MapReduce.Master.{jobs_from}
use dsystem_homework.MapReduce.Files.{Pair, Files, create_splits, split_input, do_all, do_map_job}
use dsystem_homework.MapReduce.Run.{run_single}
use dsystem_homework.MapReduce.Run.Answers.{jobs_from-AreJobs}

lookup-create_splits_above :
    (m j : ℕ) (texts : List Text) (files : Dict ℕ Text)
    → m + length texts ≤ j
    → lookup j (create_splits m texts files) ≡ lookup j files
unfolding create_splits
lookup-create_splits_above m j [] files above = refl
lookup-create_splits_above m j (text ∷ texts) files above =
    lookup-create_splits_above (suc m) j texts (insert m text files) (omega arith)
    ∙ lookup-insert m j text files
    ∙ ground arith

none_stays {ℓ κ} :
    {A : Type ℓ} {B : Type κ} {o : Option A} (k : A → Option B) → o ≡ none → (o >>= k) ≡ none
none_stays k fails = ap (λ x. x >>= k) fails

module _ (ihash : Text → ℕ) (map_func : Text → List Pair) (n_reduce : ℕ) where
  do_maps_fail :
      (j : ℕ) (jobs : List ℕ) (fs : Files)
      → In j jobs
      → lookup j fs.map_files ≡ none
      → do_all (do_map_job ihash map_func n_reduce) jobs fs ≡ none
  unfolding do_all do_map_job
  do_maps_fail j [] fs member missing = elim member [ ]
  do_maps_fail j (job ∷ jobs) fs here missing =
      none_stays (do_all (do_map_job ihash map_func n_reduce) jobs) (none_stays _ missing)
  do_maps_fail j (job ∷ jobs) fs (there later) missing =
      elim (Option-cases (lookup job fs.map_files)) [
        | inl gone ↦
            none_stays (do_all (do_map_job ihash map_func n_reduce) jobs) (none_stays _ gone)
        | inr (text, at_job) ↦
            bind_some (do_all (do_map_job ihash map_func n_reduce) jobs) (bind_some _ at_job refl)
              (do_maps_fail j jobs _ later missing)
      ]

  -- When `Split` makes fewer files than there are map jobs, and no file of an earlier run is there for
  -- the first job without one, `RunSingle` ends the program in `DoMap`.
  pub run_single_fails :
      (reduce_func : Text → List Text → Text) (n_map : ℕ) (fs : Files) {input : Text}
      {texts : List Text}
      → fs.input ≡ some input
      → split n_map input ≡ some texts
      → length texts < n_map
      → lookup (length texts) fs.map_files ≡ none
      → run_single ihash map_func reduce_func n_map n_reduce fs ≡ none
  unfolding run_single split_input
  run_single_fails reduce_func n_map fs {input} {texts} read cut too_few missing =
      bind_some _ (bind_some _ read (bind_some _ cut refl)) (
        none_stays _ (
          do_maps_fail (length texts) (jobs_from 0 n_map)
            (record fs { map_files = create_splits 0 texts fs.map_files })
            ((jobs_from-AreJobs n_map).complete (length texts) too_few)
            (lookup-create_splits_above 0 (length texts) texts fs.map_files (omega arith)
              ∙ missing)))
