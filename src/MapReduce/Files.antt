-- ===== src/MapReduce/Files.antt =====
-- project-3/src/mapreduce/mapreduce.go: the jobs on the file system. The names of the files, `MapName`,
-- `ReduceName` and `MergeName` of one input, are different for different jobs, so a file is found by
-- the numbers of its jobs. A file of pairs holds what was encoded, which decodes to the same pairs.
-- `log.Fatal` ends the program: none. A write or read of a file that is there succeeds.
pub mod Keys
pub mod Maps
pub mod Merges
pub mod Reduces
use dsystem_homework.Base.{
  ℕ, zero, suc, List, [], ◌∷◌, ◌++◌, map, Option, none, some, ◌>>=◌, Dict, lookup, insert, delete,
  nat_key, pair_key, bytes_key, is_empty, if◌then◌else◌,
}
use dsystem_homework.MapReduce.Text.{Text, sort_strings}
use dsystem_homework.MapReduce.Split.{split, newline}
use dsystem_homework.MapReduce.Jobs.{KeyValue, do_map, read_files}
use dsystem_homework.MapReduce.Jobs.Gather.{gathered}

abbrev pub Pair : Type 0
Pair = KeyValue Text Text

pub record Files : Type 0 where
  pub input : Option Text
  pub map_files : Dict ℕ Text
  pub reduce_files : Dict (ℕ × ℕ) (List Pair)
  pub merge_files : Dict ℕ (List Pair)
  pub result : Option Text

-- The files of `Split` from job `m` on. Files of an earlier run that have no successor stay.
unfoldable pub create_splits : ℕ → List Text → Dict ℕ Text → Dict ℕ Text
create_splits m [] files = files
create_splits m (text ∷ texts) files = create_splits (suc m) texts (insert m text files)

unfoldable pub split_input : ℕ → Files → Option Files
split_input n_map fs = do
  text ← fs.input
  texts ← split n_map text
  some (record fs { map_files = create_splits 0 texts fs.map_files })

-- What `DoMap` writes, for the reduce jobs from `r` on.
unfoldable pub create_all :
    ℕ → ℕ → List (List Pair) → Dict (ℕ × ℕ) (List Pair) → Dict (ℕ × ℕ) (List Pair)
create_all job r [] files = files
create_all job r (pairs ∷ rest) files = create_all job (suc r) rest (insert (job, r) pairs files)

module _ (ihash : Text → ℕ) (map_func : Text → List Pair) where
  unfoldable pub do_map_job : ℕ → ℕ → Files → Option Files
  do_map_job nreduce job fs = do
    text ← lookup job fs.map_files
    some (record fs {
      reduce_files = create_all job 0 (do_map ihash nreduce map_func text) fs.reduce_files;
    })

-- `DoReduce` opens the file of each map job, `left` of them from `i` on.
unfoldable pub open_parts : ℕ → ℕ → ℕ → Dict (ℕ × ℕ) (List Pair) → Option (List (List Pair))
open_parts job i zero files = some []
open_parts job i (suc left) files = do
  pairs ← lookup (i, job) files
  rest ← open_parts job (suc i) left files
  some (pairs ∷ rest)

abbrev pub keys : {V : Type 0} → Dict Text V → List Text
keys [] = []
keys ((k, v) ∷ kvs) = k ∷ keys kvs

module _ (reduce_func : Text → List Text → Text) where
  -- The last loop of `DoReduce`: the pairs that it encodes.
  unfoldable pub reduce_keys : Dict Text (List Text) → List Text → List Pair
  reduce_keys kvs [] = []
  reduce_keys kvs (k ∷ ks) =
      record { key = k; value = reduce_func k (gathered (lookup k kvs)) } ∷ reduce_keys kvs ks

  -- What `DoReduce` makes of the pairs of the map jobs.
  unfoldable pub reduced : List (List Pair) → List Pair
  reduced parts = let kvs = read_files parts [] in reduce_keys kvs (sort_strings (keys kvs))

  unfoldable pub do_reduce_job : ℕ → ℕ → Files → Option Files
  do_reduce_job nmap job fs = do
    parts ← open_parts job 0 nmap fs.reduce_files
    some (record fs { merge_files = insert job (reduced parts) fs.merge_files })

-- `Merge`: the pairs of a file; a later value of a key takes the place of an earlier one.
unfoldable pub merge_file : List Pair → Dict Text Text → Dict Text Text
merge_file [] kvs = kvs
merge_file (kv ∷ rest) kvs = merge_file rest (insert kv.key kv.value kvs)

-- The files of the reduce jobs, `left` of them from `i` on.
unfoldable pub merge_files : ℕ → ℕ → Dict ℕ (List Pair) → Dict Text Text → Option (Dict Text Text)
merge_files i zero files kvs = some kvs
merge_files i (suc left) files kvs = do
  pairs ← lookup i files
  merge_files (suc i) left files (merge_file pairs kvs)

abbrev pub or_empty : Option Text → Text
or_empty none = []
or_empty (some v) = v

-- The pairs of the result, in the order of their keys.
unfoldable pub sorted_pairs : Dict Text Text → List Text → Dict Text Text
sorted_pairs kvs [] = []
sorted_pairs kvs (k ∷ ks) = (k, or_empty (lookup k kvs)) ∷ sorted_pairs kvs ks

-- The lines of the result: a key, a colon and a blank, and its value.
unfoldable pub print_pairs : Dict Text Text → Text
print_pairs [] = []
print_pairs ((k, v) ∷ rest) = k ++ (58 ∷ 32 ∷ (v ++ newline ∷ print_pairs rest))

unfoldable pub merge : ℕ → Files → Option Files
merge n_reduce fs = do
  kvs ← merge_files 0 n_reduce fs.merge_files []
  some (record fs { result = some (print_pairs (sorted_pairs kvs (sort_strings (keys kvs)))) })

-- Jobs one after the other.
unfoldable pub do_all : (ℕ → Files → Option Files) → List ℕ → Files → Option Files
do_all job [] fs = some fs
do_all job (j ∷ js) fs = do after ← job j fs; do_all job js after
