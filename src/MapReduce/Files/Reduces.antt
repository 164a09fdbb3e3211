-- ===== src/MapReduce/Files/Reduces.antt =====
-- The files of the reduce jobs of project-3/src/mapreduce/mapreduce.go, whatever order they run in and
-- however often, behind the map jobs.
use dsystem_homework.Base.{
  ℕ, suc, ◌+◌, ◌<◌, ◌≡◌, refl, ap, ◌∙◌, ◌⊎◌, inl, inr, nat_beq, nat_beq_iff, List, [], ◌∷◌, length,
  get_elem?, map, In, here, there, some, Dict, lookup, insert, lookup-insert, nat_key, pair_key,
  bytes_key, Bool-cases, arith, if◌then◌else◌, All,
}
use dsystem_homework.MapReduce.Text.{Text}
use dsystem_homework.MapReduce.Jobs.{partition}
use dsystem_homework.MapReduce.Files.{Pair, Files, open_parts, reduced, do_reduce_job, do_all}

open_parts-map :
    (part : Text → List Pair) (job i : ℕ) (texts : List Text) (files : Dict (ℕ × ℕ) (List Pair))
    → ((k : ℕ) (t : Text) → get_elem? texts k ≡ some t → lookup (i + k, job) files ≡ some (part t))
    → open_parts job i (length texts) files ≡ some (map part texts)
unfolding open_parts
open_parts-map part job i [] files stored = refl
open_parts-map part job i (text ∷ texts) files stored =
    let first : lookup (i, job) files ≡ some (part text) =
      ap (λ at. lookup (at, job) files) (omega arith) ∙ stored 0 text refl in
    let rest =
      open_parts-map part job (suc i) texts files
        (λ k t at_t. ap (λ at. lookup (at, job) files) (omega arith) ∙ stored (suc k) t at_t) in
    rw (first, rest) refl

module _ (ihash : Text → ℕ) (n_reduce : ℕ) (map_func : Text → List Pair)
    (reduce_func : Text → List Text → Text) (texts : List Text) where
  -- What reduce job `r` reads of the map jobs, and what it makes of it.
  abbrev pub parts : ℕ → List (List Pair)
  parts r = map (λ t. partition ihash n_reduce r (map_func t)) texts

  abbrev pub output : ℕ → List Pair
  output r = reduced reduce_func (parts r)

  abbrev pub HasAllParts : Files → Type 0
  HasAllParts fs =
      (j r : ℕ) (t : Text)
      → get_elem? texts j ≡ some t
      → r < n_reduce
      → lookup (j, r) fs.reduce_files ≡ some (partition ihash n_reduce r (map_func t))

  record AfterReduce (fs : Files) (job : ℕ) : Type 0 where
    pub after : Files
    pub runs : do_reduce_job reduce_func (length texts) job fs ≡ some after
    pub has_parts : HasAllParts after
    pub own : lookup job after.merge_files ≡ some (output job)
    pub others :
        (r : ℕ)
        → lookup r fs.merge_files ≡ some (output r)
        → lookup r after.merge_files ≡ some (output r)

  do_reduce_job-AfterReduce :
      (fs : Files) (job : ℕ) → job < n_reduce → HasAllParts fs → AfterReduce fs job
  unfolding do_reduce_job
  do_reduce_job-AfterReduce fs job in_range has = record {
    after = record fs { merge_files = insert job (output job) fs.merge_files };
    runs =
        rw
          (open_parts-map (λ t. partition ihash n_reduce job (map_func t)) job 0 texts
            fs.reduce_files
            (λ k t at_t.
              ap (λ at. lookup (at, job) fs.reduce_files) (omega arith)
              ∙ has k job t at_t in_range))
          refl;
    has_parts = has;
    own = lookup-insert job job (output job) fs.merge_files ∙ ground arith;
    others = λ r done. lookup-insert job r (output job) fs.merge_files ∙ kept r done;
  }
    where
      kept :
          (r : ℕ)
          → lookup r fs.merge_files ≡ some (output r)
          → (if nat_beq job r then some (output job) else lookup r fs.merge_files) ≡ some (output r)
      kept r done = elim (Bool-cases (nat_beq job r)) [
        | inl same ↦ rw (same, (nat_beq_iff job r).0 same) refl
        | inr other ↦ rw other done
      ]

  pub record AfterReduces (fs : Files) (jobs : List ℕ) : Type 0 where
    pub after : Files
    pub run : do_all (do_reduce_job reduce_func (length texts)) jobs fs ≡ some after
    pub outputs :
        (r : ℕ)
        → In r jobs ⊎ (lookup r fs.merge_files ≡ some (output r))
        → lookup r after.merge_files ≡ some (output r)

  pub do_reduces-AfterReduces :
      (jobs : List ℕ) (fs : Files)
      → All (λ r. r < n_reduce) jobs
      → HasAllParts fs
      → AfterReduces fs jobs
  unfolding do_all
  do_reduces-AfterReduces [] fs in_range has = record {
    after = fs;
    run = refl;
    outputs = λ r h. elim h [ inl member ↦ elim member [ ] | inr done ↦ done ];
  }
  do_reduces-AfterReduces (job ∷ jobs) fs in_range has =
      let first = do_reduce_job-AfterReduce fs job in_range.0 has in
      let rest = do_reduces-AfterReduces jobs first.after in_range.1 first.has_parts in
      record {
        after = rest.after;
        run = rw first.runs rest.run;
        outputs = λ r h. rest.outputs r (kept first r h);
      }
    where
      kept :
          (first : AfterReduce fs job) (r : ℕ)
          → In r (job ∷ jobs) ⊎ (lookup r fs.merge_files ≡ some (output r))
          → In r jobs ⊎ (lookup r first.after.merge_files ≡ some (output r))
      kept first r (inl here) = inr first.own
      kept first r (inl (there later)) = inl later
      kept first r (inr done) = inr (first.others r done)
