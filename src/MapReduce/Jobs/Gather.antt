-- ===== src/MapReduce/Jobs/Gather.antt =====
-- What a reduce job of project-3/src/mapreduce/mapreduce.go gets for a key.
use dsystem_homework.Base.{
  ℕ, ◌%◌, ◌≡◌, ◌⊎◌, refl, sym, ap, ◌∙◌, inl, inr, true, false, nat_beq, List, [], ◌∷◌, ◌++◌, map,
  Option, none, some, if◌then◌else◌, Key, Dict, lookup, lookup-insert, append_assoc, append-nil,
  arith, Bool-cases,
}
use dsystem_homework.MapReduce.Jobs.{
  KeyValue, partition, push_back, add_pair, read_file, read_files,
}

-- What a key has in the table; a key that is not there has no values.
abbrev pub gathered : {V : Type 0} → Option (List V) → List V
gathered none = []
gathered (some vs) = vs

push_back-gathered :
    {V : Type 0} (v : V) (o : Option (List V)) → push_back v o ≡ gathered o ++ v ∷ []
push_back-gathered v none = refl
push_back-gathered v (some vs) = refl

module _ {K V : Type 0} ⦃same_key : Key K⦄ where
  -- The values of a key in a list of pairs, in their order.
  abbrev pub values_of : K → List (KeyValue K V) → List V
  values_of k [] = []
  values_of k (kv ∷ rest) =
      let vs = values_of k rest in if same_key.same kv.key k then kv.value ∷ vs else vs

  abbrev pub values_in : K → List (List (KeyValue K V)) → List V
  values_in k [] = []
  values_in k (file ∷ files) = values_of k file ++ values_in k files

  gathered-add_pair :
      (k : K) (kv : KeyValue K V) (kvs : Dict K (List V))
      → gathered (lookup k (add_pair kv kvs))
        ≡ gathered (lookup k kvs) ++ (if same_key.same kv.key k then kv.value ∷ [] else [])
  unfolding add_pair
  gathered-add_pair k kv kvs = elim (Bool-cases (same_key.same kv.key k)) [
    | inl hit ↦
        rw (lookup-insert, hit)
          (rw (← (same_key.same_iff kv.key k).0 hit)
            (push_back-gathered kv.value (lookup kv.key kvs)))
    | inr miss ↦ rw (lookup-insert, miss) (sym (append-nil (gathered (lookup k kvs))))
  ]

  read_file_values :
      (k : K) (file : List (KeyValue K V)) (kvs : Dict K (List V))
      → gathered (lookup k (read_file file kvs)) ≡ gathered (lookup k kvs) ++ values_of k file
  unfolding read_file
  read_file_values k [] kvs = sym (append-nil (gathered (lookup k kvs)))
  read_file_values k (kv ∷ rest) kvs =
      read_file_values k rest (add_pair kv kvs)
      ∙ ap (λ vs. vs ++ values_of k rest) (gathered-add_pair k kv kvs)
      ∙ append_assoc (gathered (lookup k kvs)) _ (values_of k rest)
      ∙ ap (λ vs. gathered (lookup k kvs) ++ vs) (joined (Bool-cases (same_key.same kv.key k)))
    where
      joined :
          (same_key.same kv.key k ≡ true) ⊎ (same_key.same kv.key k ≡ false)
          → (if same_key.same kv.key k then kv.value ∷ [] else []) ++ values_of k rest
            ≡ values_of k (kv ∷ rest)
      joined (inl hit) = rw hit refl
      joined (inr miss) = rw miss refl

  read_files_values :
      (k : K) (files : List (List (KeyValue K V))) (kvs : Dict K (List V))
      → gathered (lookup k (read_files files kvs)) ≡ gathered (lookup k kvs) ++ values_in k files
  unfolding read_files
  read_files_values k [] kvs = sym (append-nil (gathered (lookup k kvs)))
  read_files_values k (file ∷ files) kvs =
      read_files_values k files (read_file file kvs)
      ∙ ap (λ vs. vs ++ values_in k files) (read_file_values k file kvs)
      ∙ append_assoc (gathered (lookup k kvs)) (values_of k file) (values_in k files)

  -- A job's part of a split has all values of the keys that are its own, and none of the others.
  partition_values :
      (ihash : K → ℕ) (nreduce r : ℕ) (k : K) (res : List (KeyValue K V))
      → values_of k (partition ihash nreduce r res)
        ≡ (if nat_beq (ihash k % nreduce) r then values_of k res else [])
  unfolding partition
  partition_values ihash nreduce r k [] = ground arith
  partition_values ihash nreduce r k (kv ∷ res) =
      ground (arith, partition_values ihash nreduce r k res, same_key.same_iff kv.key k)

  -- A reduce job that reads its part of the pairs of every map job gets, for a key whose hash is its
  -- own, all values that the map jobs gave for the key, in the order of the jobs and of their pairs,
  -- and for every other key none.
  pub reduce_gets_all :
      (ihash : K → ℕ) (nreduce r : ℕ) (k : K) (results : List (List (KeyValue K V)))
      → gathered (lookup k (read_files (map (partition ihash nreduce r) results) []))
        ≡ (if nat_beq (ihash k % nreduce) r then values_in k results else [])
  unfolding lookup
  reduce_gets_all ihash nreduce r k results =
      read_files_values k (map (partition ihash nreduce r) results) []
      ∙ ap (λ vs. gathered (lookup k []) ++ vs) (parts results)
      ∙ nothing_first
    where
      parts :
          (rs : List (List (KeyValue K V)))
          → values_in k (map (partition ihash nreduce r) rs)
            ≡ (if nat_beq (ihash k % nreduce) r then values_in k rs else [])
      parts [] = ground arith
      parts (res ∷ rs) = elim (Bool-cases (nat_beq (ihash k % nreduce) r)) [
        | inl own ↦ rw (partition_values ihash nreduce r k res, parts rs, own) refl
        | inr other ↦ rw (partition_values ihash nreduce r k res, parts rs, other) refl
      ]

      nothing_first :
          gathered (lookup k [])
            ++ (if nat_beq (ihash k % nreduce) r then values_in k results else [])
          ≡ (if nat_beq (ihash k % nreduce) r then values_in k results else [])
      nothing_first = refl
