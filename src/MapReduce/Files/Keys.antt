-- ===== src/MapReduce/Files/Keys.antt =====
-- The keys of a map, as `DoReduce` and `Merge` of project-3/src/mapreduce/mapreduce.go collect them.
use dsystem_homework.Base.{
  ◌≡◌, refl, ◌∙◌, ap, inl, inr, Bool, true, false, ◌||◌, List, [], ◌∷◌, Option, none, some,
  Bool-cases, arith, bytes_beq, bytes_beq_iff, bytes_key, Dict, lookup, insert, if◌then◌else◌,
}
use dsystem_homework.MapReduce.Text.{Text, sort_strings}
use dsystem_homework.MapReduce.Text.Sorting.{contains, Distinct, contains-sort_strings}
use dsystem_homework.MapReduce.Files.{keys, sorted_pairs, or_empty}

abbrev pub is_some {ℓ} : {A : Type ℓ} → Option A → Bool
is_some none = false
is_some (some x) = true

module _ {V : Type 0} where
  pub contains-keys : (k : Text) (m : Dict Text V) → contains k (keys m) ≡ is_some (lookup k m)
  unfolding contains lookup
  contains-keys k [] = refl
  contains-keys k ((j, v) ∷ m) = ground (arith, contains-keys k m)

  contains-insert :
      (k j : Text) (v : V) (m : Dict Text V)
      → contains k (keys (insert j v m)) ≡ (bytes_beq j k || contains k (keys m))
  unfolding contains insert
  contains-insert k j v [] = refl
  contains-insert k j v ((i, w) ∷ m) = ground (arith, bytes_beq_iff i j, contains-insert k j v m)

  pub insert-Distinct :
      (j : Text) (v : V) (m : Dict Text V) → Distinct (keys m) → Distinct (keys (insert j v m))
  unfolding contains insert
  insert-Distinct j v [] different = (refl, tt)
  insert-Distinct j v ((i, w) ∷ m) (new, different) = elim (Bool-cases (bytes_beq i j)) [
    | inl same ↦ rw same (ground (arith, (bytes_beq_iff i j).0 same), different)
    | inr other ↦ rw other (
      contains-insert i j v m ∙ ground (arith, bytes_beq_iff i j, bytes_beq_iff j i),
      insert-Distinct j v m different,
    )
  ]

lookup-sorted_pairs :
    (k : Text) (kvs : Dict Text Text) (ks : List Text)
    → lookup k (sorted_pairs kvs ks)
      ≡ (if contains k ks then some (or_empty (lookup k kvs)) else none)
unfolding lookup sorted_pairs contains
lookup-sorted_pairs k kvs [] = refl
lookup-sorted_pairs k kvs (j ∷ ks) = ground (arith, bytes_beq_iff j k, lookup-sorted_pairs k kvs ks)

pub keys-sorted_pairs : (kvs : Dict Text Text) (ks : List Text) → keys (sorted_pairs kvs ks) ≡ ks
unfolding sorted_pairs
keys-sorted_pairs kvs [] = refl
keys-sorted_pairs kvs (k ∷ ks) = ap (◌∷◌ k) (keys-sorted_pairs kvs ks)

-- The sorted pairs have for each key what the map has.
pub lookup-sort_keys :
    (k : Text) (kvs : Dict Text Text)
    → lookup k (sorted_pairs kvs (sort_strings (keys kvs))) ≡ lookup k kvs
lookup-sort_keys k kvs =
    lookup-sorted_pairs k kvs (sort_strings (keys kvs))
    ∙ ap (λ b. if b then some (or_empty (lookup k kvs)) else none)
        (contains-sort_strings k (keys kvs) ∙ contains-keys k kvs)
    ∙ back (lookup k kvs)
  where
    back : (o : Option Text) → (if is_some o then some (or_empty o) else none) ≡ o
    back none = refl
    back (some v) = refl
