-- ===== src/MapReduce/Run/Parallel.antt =====
-- A run of project-3/src/mapreduce by the master of master.go, whichever of its workers fail.
use dsystem_homework.Base.{
  ℕ, zero, suc, ◌+◌, ◌<◌, ◌≤◌, ◌≡◌, refl, inl, inr, true, List, [], ◌∷◌, length, In, here, there,
  All, some, arith, nat_beq, nat_beq_iff, ltb, Bool-cases, subst, if◌then◌else◌,
}
use dsystem_homework.MapReduce.Text.{Text}
use dsystem_homework.MapReduce.Split.{split}
use dsystem_homework.MapReduce.Master.{System, start, Reach, here, jobs_from}
use dsystem_homework.MapReduce.Master.Tally.{tally, times}
use dsystem_homework.MapReduce.Master.Order.{Reach-Inv, start-Inv}
use dsystem_homework.MapReduce.Master.Phases.{reduces_after_maps, finishes_after_reduces}
use dsystem_homework.MapReduce.Master.Started.{finished-started}
use dsystem_homework.MapReduce.Files.{Pair, Files}
use dsystem_homework.MapReduce.Run.{run, run_single}
use dsystem_homework.MapReduce.Run.Answers.{AreJobs, run-run_single}

-- 1 for a number that is no job.
abbrev is_stray : ℕ → ℕ → ℕ
is_stray n j = if ltb j n then 0 else 1

no_strays : (n i left : ℕ) → i + left ≤ n → tally (is_stray n) (jobs_from i left) ≡ 0
unfolding tally jobs_from
no_strays n i zero fits = refl
no_strays n i (suc left) fits = ground (arith, no_strays n (suc i) left (omega arith))

none-stray : (n : ℕ) (js : List ℕ) → tally (is_stray n) js ≡ 0 → All (λ j. j < n) js
unfolding tally
none-stray n [] h = tt
none-stray n (j ∷ js) h = (ground arith, none-stray n js (omega arith))

times-In : (k : ℕ) (js : List ℕ) → times k js ≡ 1 → In k js
unfolding tally
times-In k [] h = absurd (omega arith)
times-In k (j ∷ js) h = elim (Bool-cases (nat_beq j k)) [
  | inl same ↦ subst (λ i. In i (j ∷ js)) ((nat_beq_iff j k).0 same) here
  | inr other ↦ there (times-In k js (ground arith))
]

-- Jobs of which each is done once, and no others.
done_jobs :
    (n : ℕ) (queued did : List ℕ) (held : ℕ)
    → tally (is_stray n) queued + held + tally (is_stray n) did ≡ tally (is_stray n) (jobs_from 0 n)
    → ((k : ℕ) → k < n → times k did ≡ 1)
    → AreJobs n did
done_jobs n queued did held kept once = record {
  in_range = none-stray n did (omega (arith, no_strays n 0 n (omega arith)));
  complete = λ j below. times-In j did (once j below);
}

-- When `Split` makes a file for every map job, there is a reduce job, and the master has finished,
-- whichever workers failed: the jobs that were answered as done, in the order of the answers and the
-- reduce jobs behind the map jobs, give the same result as `RunSingle`, and both end.
pub finished_run-run_single :
    (ihash : Text → ℕ) (map_func : Text → List Pair) (reduce_func : Text → List Text → Text)
    (n_map n_reduce : ℕ) (s : System) (fs : Files) {input : Text} {texts : List Text}
    → Reach (start n_map n_reduce) s
    → s.master.finished ≡ true
    → 0 < n_reduce
    → fs.input ≡ some input
    → split n_map input ≡ some texts
    → length texts ≡ n_map
    → (after single : Files) × (run ihash map_func reduce_func n_map n_reduce s.did_map s.did_reduce
          fs
        ≡ some after)
      × (run_single ihash map_func reduce_func n_map n_reduce fs ≡ some single)
      × (after.result ≡ single.result)
finished_run-run_single ihash map_func reduce_func n_map n_reduce s fs r off some_jobs read cut
      all_made =
    let inv = Reach-Inv r (start-Inv n_map n_reduce) in
    let started = finished-started n_map n_reduce s r off some_jobs in
    run-run_single ihash map_func reduce_func n_map n_reduce s.did_map s.did_reduce fs read cut
      all_made
      (done_jobs n_map s.master.map_jobs s.did_map _ (inv.maps (is_stray n_map))
        (λ k below. reduces_after_maps n_map n_reduce s k r started below))
      (done_jobs n_reduce s.master.reduce_jobs s.did_reduce _ (inv.reduces (is_stray n_reduce))
        (λ k below. finishes_after_reduces n_map n_reduce s k r off below))
