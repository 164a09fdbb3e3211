-- ===== src/MapReduce/Text/Sorting.antt =====
-- `sort.Strings` as project-3/src/mapreduce/mapreduce.go uses it: on the keys of a map.
use dsystem_homework.Base.{
  ◌≡◌, refl, ◌∙◌, ap, inl, inr, Bool, true, false, ◌||◌, List, [], ◌∷◌, Bool-cases, arith,
  bytes_beq, bytes_beq_iff, bytes_key,
}
use dsystem_homework.MapReduce.Text.{Text, text_leb, insert_sorted, sort_strings}

unfoldable pub contains : Text → List Text → Bool
contains k [] = false
contains k (j ∷ js) = bytes_beq j k || contains k js

abbrev pub Distinct : List Text → Type 0
Distinct [] = Unit
Distinct (k ∷ ks) = (contains k ks ≡ false) × Distinct ks

abbrev pub IsBelow : Text → List Text → Type 0
IsBelow k [] = Unit
IsBelow k (j ∷ js) = (text_leb k j ≡ true) × (bytes_beq j k ≡ false)

-- Each string is less than the next one.
abbrev pub Ascending : List Text → Type 0
Ascending [] = Unit
Ascending (k ∷ ks) = IsBelow k ks × Ascending ks

text_leb_total : (xs ys : Text) → text_leb xs ys ≡ false → text_leb ys xs ≡ true
unfolding text_leb
text_leb_total [] ys h = cc
text_leb_total (x ∷ xs) [] h = refl
text_leb_total (x ∷ xs) (y ∷ ys) h = ground (arith, text_leb_total xs ys)

contains-insert_sorted :
    (k j : Text) (js : List Text)
    → contains k (insert_sorted j js) ≡ (bytes_beq j k || contains k js)
unfolding contains insert_sorted
contains-insert_sorted k j [] = refl
contains-insert_sorted k j (i ∷ js) = ground (arith, contains-insert_sorted k j js)

pub contains-sort_strings :
    (k : Text) (ks : List Text) → contains k (sort_strings ks) ≡ contains k ks
unfolding contains sort_strings
contains-sort_strings k [] = refl
contains-sort_strings k (j ∷ ks) =
    contains-insert_sorted k j (sort_strings ks)
    ∙ ap (λ b. bytes_beq j k || b) (contains-sort_strings k ks)

insert_sorted-IsBelow :
    (i k : Text) (js : List Text)
    → IsBelow i js
    → text_leb i k ≡ true
    → bytes_beq k i ≡ false
    → IsBelow i (insert_sorted k js)
unfolding insert_sorted
insert_sorted-IsBelow i k [] below le other = (le, other)
insert_sorted-IsBelow i k (j ∷ js) below le other = elim (Bool-cases (text_leb k j)) [
  | inl first ↦ rw first (le, other)
  | inr later ↦ rw later below
]

insert_sorted-Ascending :
    (k : Text) (js : List Text)
    → contains k js ≡ false
    → Ascending js
    → Ascending (insert_sorted k js)
unfolding insert_sorted contains
insert_sorted-Ascending k [] new up = (tt, tt)
insert_sorted-Ascending k (j ∷ js) new (below, up) = elim (Bool-cases (text_leb k j)) [
  | inl first ↦ rw first ((first, ground arith), (below, up))
  | inr later ↦ rw later (
    insert_sorted-IsBelow j k js below (text_leb_total k j later)
        (ground (arith, bytes_beq_iff j k, bytes_beq_iff k j)),
    insert_sorted-Ascending k js (ground arith) up,
  )
]

pub sort_strings-Ascending : (ks : List Text) → Distinct ks → Ascending (sort_strings ks)
unfolding sort_strings
sort_strings-Ascending [] different = tt
sort_strings-Ascending (k ∷ ks) (new, different) =
    insert_sorted-Ascending k (sort_strings ks) (contains-sort_strings k ks ∙ new)
      (sort_strings-Ascending ks different)
