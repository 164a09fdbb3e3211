-- ===== src/MapReduce/Jobs.antt =====
-- project-3/src/mapreduce/mapreduce.go: how `DoMap` divides the pairs of a split among the reduce jobs,
-- and how `DoReduce` gathers the values of a key. A file of pairs is a list of them, read in the order
-- in which it was written. Keys and values are strings, of which only the comparison of keys matters;
-- `ihash` is the hash of package fnv.
pub mod Gather
use dsystem_homework.Base.{
  ℕ, zero, suc, ◌+◌, ◌%◌, nat_beq, List, [], ◌∷◌, ◌++◌, map, Option, none, some, if◌then◌else◌, Key,
  Dict, lookup, insert,
}

pub record KeyValue (K V : Type 0) : Type 0 where
  pub key : K
  pub value : V

module _ {K V : Type 0} (ihash : K → ℕ) where
  -- The inner loop of `DoMap`, for reduce job `r` of `nreduce`: what it writes to the job's file.
  unfoldable pub partition : ℕ → ℕ → List (KeyValue K V) → List (KeyValue K V)
  partition nreduce r [] = []
  partition nreduce r (kv ∷ res) =
      let rest = partition nreduce r res in
      if nat_beq (ihash kv.key % nreduce) r then kv ∷ rest else rest

  -- The loop over the jobs from `r` on, with `left` to go: the files that it writes.
  unfoldable pub partitions : ℕ → ℕ → ℕ → List (KeyValue K V) → List (List (KeyValue K V))
  partitions nreduce zero r res = []
  partitions nreduce (suc left) r res =
      partition nreduce r res ∷ partitions nreduce left (suc r) res

  -- `DoMap` on the text of a split.
  unfoldable pub do_map :
      {T : Type 0} → ℕ → (T → List (KeyValue K V)) → T → List (List (KeyValue K V))
  do_map nreduce map_func text = partitions nreduce nreduce 0 (map_func text)

abbrev pub push_back : {V : Type 0} → V → Option (List V) → List V
push_back v none = v ∷ []
push_back v (some vs) = vs ++ v ∷ []

module _ {K V : Type 0} ⦃same_key : Key K⦄ where
  -- A pair that `DoReduce` reads: a new list for a new key, and the value at the end of the list.
  unfoldable pub add_pair : KeyValue K V → Dict K (List V) → Dict K (List V)
  add_pair kv kvs = insert kv.key (push_back kv.value (lookup kv.key kvs)) kvs

  -- The pairs of one file.
  unfoldable pub read_file : List (KeyValue K V) → Dict K (List V) → Dict K (List V)
  read_file [] kvs = kvs
  read_file (kv ∷ rest) kvs = read_file rest (add_pair kv kvs)

  -- The loop of `DoReduce` over the files of the map jobs.
  unfoldable pub read_files : List (List (KeyValue K V)) → Dict K (List V) → Dict K (List V)
  read_files [] kvs = kvs
  read_files (file ∷ files) kvs = read_files files (read_file file kvs)
