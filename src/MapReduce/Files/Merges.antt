-- ===== src/MapReduce/Files/Merges.antt =====
-- What `DoReduce` writes for a key, and what `Merge` of project-3/src/mapreduce/mapreduce.go makes of
-- the files of all reduce jobs.
use native.Mathlib.Nat.{mod-lt}
use dsystem_homework.Base.{
  ℕ, zero, suc, ◌+◌, ◌%◌, ◌<◌, ◌≤◌, ◌≡◌, refl, ap, ◌∙◌, inl, inr, Bool, true, false, not, ltb, leb,
  ◌&&◌, nat_beq, List, [], ◌∷◌, map, Option, none, some, Dict, lookup, insert, lookup-insert,
  nat_key, bytes_key, bytes_beq, bytes_beq_iff, Bool-cases, arith, if◌then◌else◌, is_empty, All,
  All-insert,
}
use dsystem_homework.MapReduce.Text.{Text, sort_strings}
use dsystem_homework.MapReduce.Text.Sorting.{contains, Distinct, contains-sort_strings}
use dsystem_homework.MapReduce.Jobs.{partition, read_file, read_files, push_back, add_pair}
use dsystem_homework.MapReduce.Jobs.Gather.{gathered, values_in, reduce_gets_all}
use dsystem_homework.MapReduce.Files.{Pair, keys, reduce_keys, reduced, merge_file, merge_files}
use dsystem_homework.MapReduce.Files.Keys.{is_some, contains-keys, insert-Distinct}

abbrev pub or_else : Option Text → Option Text → Option Text
or_else none other = other
or_else (some v) other = some v

or_else-none : (o : Option Text) → or_else o none ≡ o
or_else-none none = refl
or_else-none (some v) = refl

or_else_same : (b : Bool) (v : Text) → or_else (if b then some v else none) (some v) ≡ some v
or_else_same true v = refl
or_else_same false v = refl

-- The last value of a key in a file.
unfoldable pub last_in : Text → List Pair → Option Text
last_in k [] = none
last_in k (kv ∷ rest) =
    or_else (last_in k rest) (if bytes_beq kv.key k then some kv.value else none)

lookup-merge_file :
    (k : Text) (pairs : List Pair) (kvs : Dict Text Text)
    → lookup k (merge_file pairs kvs) ≡ or_else (last_in k pairs) (lookup k kvs)
unfolding merge_file last_in
lookup-merge_file k [] kvs = refl
lookup-merge_file k (kv ∷ rest) kvs =
    lookup-merge_file k rest (insert kv.key kv.value kvs)
    ∙ ap (or_else (last_in k rest)) (lookup-insert kv.key k kv.value kvs)
    ∙ ground arith

merge_file-Distinct :
    (pairs : List Pair) (kvs : Dict Text Text)
    → Distinct (keys kvs)
    → Distinct (keys (merge_file pairs kvs))
unfolding merge_file
merge_file-Distinct [] kvs different = different
merge_file-Distinct (kv ∷ rest) kvs different =
    merge_file-Distinct rest (insert kv.key kv.value kvs)
      (insert-Distinct kv.key kv.value kvs different)

-- A key that is in the table of `DoReduce` has a value.
abbrev HasValues : Text × List Text → Type 0
HasValues e = is_empty e.1 ≡ false

push_back_some : (v : Text) (o : Option (List Text)) → is_empty (push_back v o) ≡ false
push_back_some v none = refl
push_back_some v (some []) = refl
push_back_some v (some (u ∷ vs)) = refl

read_file-HasValues :
    (file : List Pair) (kvs : Dict Text (List Text))
    → All HasValues kvs
    → All HasValues (read_file file kvs)
unfolding read_file add_pair
read_file-HasValues [] kvs all = all
read_file-HasValues (kv ∷ file) kvs all = read_file-HasValues file (add_pair kv kvs) (
    All-insert HasValues kv.key (push_back kv.value (lookup kv.key kvs)) kvs
      (push_back_some kv.value (lookup kv.key kvs)) all)

read_files-HasValues :
    (files : List (List Pair)) (kvs : Dict Text (List Text))
    → All HasValues kvs
    → All HasValues (read_files files kvs)
unfolding read_files
read_files-HasValues [] kvs all = all
read_files-HasValues (file ∷ files) kvs all =
    read_files-HasValues files (read_file file kvs) (read_file-HasValues file kvs all)

is_some-HasValues :
    (k : Text) (kvs : Dict Text (List Text))
    → All HasValues kvs
    → is_some (lookup k kvs) ≡ not (is_empty (gathered (lookup k kvs)))
unfolding lookup
is_some-HasValues k [] all = refl
is_some-HasValues k ((j, vs) ∷ kvs) (has, all) = elim (Bool-cases (bytes_beq j k)) [
  | inl hit ↦ rw (hit, has) refl
  | inr miss ↦ rw miss (is_some-HasValues k kvs all)
]

-- Merging the file of job `i` before those that follow it.
one_more :
    (own i left : ℕ) (a b : Option Text)
    → (if leb (suc i) own && ltb own (suc i + left)
        then or_else a (or_else (if nat_beq own i then a else none) b)
        else or_else (if nat_beq own i then a else none) b)
      ≡ (if leb i own && ltb own (i + suc left) then or_else a b else b)
one_more own i left a b = ground arith

module _ (reduce_func : Text → List Text → Text) where
  -- What the reduce function gives for the values of a key; a key without values is not there.
  abbrev pub answer : Text → List Text → Option Text
  answer k vs = if is_empty vs then none else some (reduce_func k vs)

  last_in-reduce_keys :
      (k : Text) (kvs : Dict Text (List Text)) (ks : List Text)
      → last_in k (reduce_keys reduce_func kvs ks)
        ≡ (if contains k ks then some (reduce_func k (gathered (lookup k kvs))) else none)
  unfolding last_in reduce_keys contains
  last_in-reduce_keys k kvs [] = refl
  last_in-reduce_keys k kvs (j ∷ ks) = elim (Bool-cases (bytes_beq j k)) [
    | inl hit ↦
        let same : j ≡ k = (bytes_beq_iff j k).0 hit in
        rw (last_in-reduce_keys k kvs ks, hit, same)
          (or_else_same (contains k ks) (reduce_func k (gathered (lookup k kvs))))
    | inr miss ↦ rw (last_in-reduce_keys k kvs ks, miss) (or_else-none _)
  ]

  last_in-reduced :
      (k : Text) (parts : List (List Pair))
      → last_in k (reduced reduce_func parts) ≡ answer k (gathered (lookup k (read_files parts [])))
  unfolding reduced
  last_in-reduced k parts =
      let kvs = read_files parts [] in
      last_in-reduce_keys k kvs (sort_strings (keys kvs))
      ∙ ap (λ b. if b then some (reduce_func k (gathered (lookup k kvs))) else none)
          (contains-sort_strings k (keys kvs)
            ∙ contains-keys k kvs
            ∙ is_some-HasValues k kvs (read_files-HasValues parts [] tt))
      ∙ ground arith

  module _ (ihash : Text → ℕ) (n_reduce : ℕ) (results : List (List Pair)) where
    abbrev pub output : ℕ → List Pair
    output r = reduced reduce_func (map (partition ihash n_reduce r) results)

    last_in-output :
        (k : Text) (r : ℕ)
        → last_in k (output r)
          ≡ (if nat_beq (ihash k % n_reduce) r then answer k (values_in k results) else none)
    last_in-output k r =
        last_in-reduced k (map (partition ihash n_reduce r) results)
        ∙ ap (answer k) (reduce_gets_all ihash n_reduce r k results)
        ∙ pushed (nat_beq (ihash k % n_reduce) r)
      where
        pushed :
            (b : Bool)
            → answer k (if b then values_in k results else [])
              ≡ (if b then answer k (values_in k results) else none)
        pushed true = refl
        pushed false = refl

    -- The keys of reduce jobs `i` and later, `left` of them, are in the table; the others as before.
    abbrev Gives : ℕ → ℕ → Dict Text Text → Dict Text Text → Type 0
    Gives i left before kvs =
        (k : Text)
        → lookup k kvs ≡ (
            if leb i (ihash k % n_reduce) && ltb (ihash k % n_reduce) (i + left)
            then or_else (answer k (values_in k results)) (lookup k before)
            else lookup k before)

    -- The table behind the files of the jobs from `i` on.
    unfoldable pub merged : ℕ → ℕ → Dict Text Text → Dict Text Text
    merged i zero before = before
    merged i (suc left) before = merged (suc i) left (merge_file (output i) before)

    pub merge_files-merged :
        (left i : ℕ) (files : Dict ℕ (List Pair)) (before : Dict Text Text)
        → ((r : ℕ) → i ≤ r → r < i + left → lookup r files ≡ some (output r))
        → merge_files i left files before ≡ some (merged i left before)
    unfolding merge_files merged
    merge_files-merged zero i files before stored = refl
    merge_files-merged (suc left) i files before stored =
        rw (stored i (omega arith) (omega arith)) (
          merge_files-merged left (suc i) files (merge_file (output i) before)
            (λ r low high. stored r (omega arith) (omega arith)))

    merged-Gives :
        (left i : ℕ) (before : Dict Text Text) → Gives i left before (merged i left before)
    unfolding merged
    merged-Gives zero i before k = ground arith
    merged-Gives (suc left) i before k =
        merged-Gives left (suc i) (merge_file (output i) before) k
        ∙ rw (lookup-merge_file k (output i) before, last_in-output k i)
            (one_more (ihash k % n_reduce) i left (answer k (values_in k results))
              (lookup k before))

    pub merged-Distinct :
        (left i : ℕ) (before : Dict Text Text)
        → Distinct (keys before)
        → Distinct (keys (merged i left before))
    unfolding merged
    merged-Distinct zero i before different = different
    merged-Distinct (suc left) i before different =
        merged-Distinct left (suc i) (merge_file (output i) before)
          (merge_file-Distinct (output i) before different)

    -- The table of all reduce jobs has the answers.
    pub lookup-merged :
        (k : Text) → 0 < n_reduce → lookup k (merged 0 n_reduce []) ≡ answer k (values_in k results)
    unfolding lookup
    lookup-merged k some_jobs =
        let in_range : ihash k % n_reduce < n_reduce = mod-lt (ihash k) some_jobs in
        merged-Gives n_reduce 0 [] k ∙ ground (arith, or_else-none (answer k (values_in k results)))
