-- ===== src/MapReduce/Files/Maps.antt =====
-- The files of the map jobs of project-3/src/mapreduce/mapreduce.go, whatever order they run in and
-- however often.
use dsystem_homework.Base.{
  ℕ, zero, suc, ◌+◌, ◌<◌, ◌≤◌, ◌≡◌, refl, ◌∙◌, ◌⊎◌, inl, inr, false, nat_beq, nat_beq_iff, List, [],
  ◌∷◌, length, get_elem?, get_elem?-some, In, here, there, All, some, Dict, lookup, insert,
  lookup-insert, nat_key, pair_key, Bool-cases, subst, arith, bytes_key,
}
use dsystem_homework.MapReduce.Text.{Text}
use dsystem_homework.MapReduce.Jobs.{partition, partitions, do_map}
use dsystem_homework.MapReduce.Files.{Pair, Files, create_all, do_map_job, do_all}

lookup-create_all :
    (job r0 j r : ℕ) (parts : List (List Pair)) (files : Dict (ℕ × ℕ) (List Pair))
    → (nat_beq job j ≡ false) ⊎ (r < r0)
    → lookup (j, r) (create_all job r0 parts files) ≡ lookup (j, r) files
unfolding create_all
lookup-create_all job r0 j r [] files other = refl
lookup-create_all job r0 j r (pairs ∷ parts) files other =
    lookup-create_all job (suc r0) j r parts (insert (job, r0) pairs files) (ground arith)
    ∙ lookup-insert (job, r0) (j, r) pairs files
    ∙ ground arith

module _ (ihash : Text → ℕ) (n_reduce : ℕ) where
  lookup-create_own :
      (left job r0 r : ℕ) (res : List Pair) (files : Dict (ℕ × ℕ) (List Pair))
      → r0 ≤ r
      → r < r0 + left
      → lookup (job, r) (create_all job r0 (partitions ihash n_reduce left r0 res) files)
        ≡ some (partition ihash n_reduce r res)
  unfolding create_all partitions
  lookup-create_own zero job r0 r res files low high = absurd (omega arith)
  lookup-create_own (suc left) job r0 r res files low high = elim (Bool-cases (nat_beq r0 r)) [
    | inl same ↦
        let is_r : r0 ≡ r = (nat_beq_iff r0 r).0 same in
        lookup-create_all job (suc r0) job r (partitions ihash n_reduce left (suc r0) res) _
          (inr (omega arith))
        ∙ lookup-insert (job, r0) (job, r) (partition ihash n_reduce r0 res) files
        ∙ rw is_r (ground arith)
    | inr later ↦
        lookup-create_own left job (suc r0) r res
          (insert (job, r0) (partition ihash n_reduce r0 res) files) (ground arith) (omega arith)
  ]

  module _ (map_func : Text → List Pair) (texts : List Text) where
    abbrev pub HasSplits : Files → Type 0
    HasSplits fs = (j : ℕ) (t : Text) → get_elem? texts j ≡ some t → lookup j fs.map_files ≡ some t

    -- The files of map job `j` are there, for each reduce job.
    abbrev pub HasParts : Files → ℕ → Type 0
    HasParts fs j =
        (t : Text) (r : ℕ)
        → get_elem? texts j ≡ some t
        → r < n_reduce
        → lookup (j, r) fs.reduce_files ≡ some (partition ihash n_reduce r (map_func t))

    record AfterMap (fs : Files) (job : ℕ) : Type 0 where
      pub after : Files
      pub runs : do_map_job ihash map_func n_reduce job fs ≡ some after
      pub splits : HasSplits after
      pub own : HasParts after job
      pub others : (j : ℕ) → HasParts fs j → HasParts after j

    do_map_job-AfterMap :
        (fs : Files) (job : ℕ) → job < length texts → HasSplits fs → AfterMap fs job
    unfolding do_map_job do_map
    do_map_job-AfterMap fs job in_range stored =
        let (text, at_job) = get_elem?-some texts job in_range in
        let files = partitions ihash n_reduce n_reduce 0 (map_func text) in
        let written = record fs { reduce_files = create_all job 0 files fs.reduce_files } in
        let parts : HasParts written job = λ t r at_t lt.
          let same : text ≡ t = cc in
          rw (← same) (
            lookup-create_own n_reduce job 0 r (map_func text) fs.reduce_files (omega arith)
              (omega arith)) in
        record {
          after = written;
          runs = rw (stored job text at_job) refl;
          splits = stored;
          own = parts;
          others = λ j done. elim (Bool-cases (nat_beq job j)) [
            | inl same ↦ subst (HasParts written) ((nat_beq_iff job j).0 same) parts
            | inr other ↦ λ t r at_t lt.
                lookup-create_all job 0 j r files fs.reduce_files (inl other) ∙ done t r at_t lt
          ];
        }

    pub record AfterMaps (fs : Files) (jobs : List ℕ) : Type 0 where
      pub after : Files
      pub run : do_all (do_map_job ihash map_func n_reduce) jobs fs ≡ some after
      pub splits : HasSplits after
      pub parts : (j : ℕ) → In j jobs ⊎ HasParts fs j → HasParts after j

    pub do_maps-AfterMaps :
        (jobs : List ℕ) (fs : Files)
        → All (λ j. j < length texts) jobs
        → HasSplits fs
        → AfterMaps fs jobs
    unfolding do_all
    do_maps-AfterMaps [] fs in_range stored = record {
      after = fs;
      run = refl;
      splits = stored;
      parts = λ j h. elim h [ inl member ↦ elim member [ ] | inr done ↦ done ];
    }
    do_maps-AfterMaps (job ∷ jobs) fs in_range stored =
        let first = do_map_job-AfterMap fs job in_range.0 stored in
        let rest = do_maps-AfterMaps jobs first.after in_range.1 first.splits in
        record {
          after = rest.after;
          run = rw first.runs rest.run;
          splits = rest.splits;
          parts = λ j h. rest.parts j (kept first j h);
        }
      where
        kept :
            (first : AfterMap fs job) (j : ℕ)
            → In j (job ∷ jobs) ⊎ HasParts fs j
            → In j jobs ⊎ HasParts first.after j
        kept first j (inl here) = inr first.own
        kept first j (inl (there later)) = inl later
        kept first j (inr done) = inr (first.others j done)
