-- ===== src/MapReduce/Text.antt =====
-- The strings of project-3/src/mapreduce: valid UTF-8, as lists of code points. Their length in bytes
-- and their order are those of the encoding, which keeps the order of the code points.
pub mod Sorting
use dsystem_homework.Base.{
  ◌≡◌, ◌++◌, arith, ℕ, ◌+◌, Bool, true, false, ◌||◌, ◌&&◌, ltb, nat_beq, List, [], ◌∷◌,
  if◌then◌else◌,
}

abbrev pub Text : Type 0
Text = List ℕ

-- The bytes that UTF-8 uses for a code point.
abbrev pub width : ℕ → ℕ
width c = if ltb c 128 then 1 else if ltb c 2048 then 2 else if ltb c 65536 then 3 else 4

-- `len` of a string.
unfoldable pub byte_length : Text → ℕ
byte_length [] = 0
byte_length (c ∷ cs) = width c + byte_length cs

pub byte_length-append : (xs ys : Text) → byte_length (xs ++ ys) ≡ byte_length xs + byte_length ys
unfolding byte_length
byte_length-append [] ys = omega arith
byte_length-append (x ∷ xs) ys = omega (arith, byte_length-append xs ys)

-- `<=` of strings.
unfoldable pub text_leb : Text → Text → Bool
text_leb [] ys = true
text_leb (x ∷ xs) [] = false
text_leb (x ∷ xs) (y ∷ ys) = ltb x y || (nat_beq x y && text_leb xs ys)

-- `sort.Strings`, by insertion.
unfoldable pub insert_sorted : Text → List Text → List Text
insert_sorted k [] = k ∷ []
insert_sorted k (j ∷ js) = if text_leb k j then k ∷ j ∷ js else j ∷ insert_sorted k js

unfoldable pub sort_strings : List Text → List Text
sort_strings [] = []
sort_strings (k ∷ ks) = insert_sorted k (sort_strings ks)
