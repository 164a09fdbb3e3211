-- ===== src/MapReduce/WordCount.antt =====
-- project-3/src/main/wc.go: `Map` and `Reduce` of the word count. Which code points are letters is
-- package unicode's table. An `int` of 64 bits is a number below 2 ^ 64, two's complement.
pub mod Fields
pub mod Counts
pub mod Digits
pub mod Total
use dsystem_homework.Base.{
  ℕ, zero, suc, ◌+◌, ◌-◌, ◌*◌, ◌/◌, ◌%◌, ◌^◌, Bool, ltb, leb, nat_beq, List, [], ◌∷◌, ◌++◌, map,
  Option, none, some, if◌then◌else◌, is_empty, ◌&&◌,
}
use dsystem_homework.MapReduce.Text.{Text}
use dsystem_homework.MapReduce.Jobs.{KeyValue}

-- `FieldsFunc` puts a field in front of the ones that follow, unless it has no letters.
abbrev pub add_field : Text → List Text → List Text
add_field word words = if is_empty word then words else word ∷ words

module _ (is_letter : ℕ → Bool) where
  -- `strings.FieldsFunc`, behind the letters `word` of the current field.
  unfoldable pub fields_func : Text → Text → List Text
  fields_func word [] = add_field word []
  fields_func word (c ∷ rest) =
      let inside = fields_func (word ++ c ∷ []) rest in
      let after = fields_func [] rest in if is_letter c then inside else add_field word after

  unfoldable pub map_func : Text → List (KeyValue Text Text)
  map_func value = map (λ s. record { key = s; value = 49 ∷ [] }) (fields_func [] value)

abbrev pub minus_sign : ℕ
minus_sign = 45

-- The digits behind `n`; none for another character.
unfoldable pub read_digits : ℕ → Text → Option ℕ
read_digits n [] = some n
read_digits n (c ∷ cs) =
    let rest = read_digits (10 * n + (c - 48)) cs in if leb 48 c && leb c 57 then rest else none

-- Out of range is the nearest `int`; a text that is no number gives 0. The error is dropped.
abbrev positive : Option ℕ → ℕ
positive none = 0
positive (some n) = if ltb n (2 ^ 63) then n else 2 ^ 63 - 1

abbrev negative : Option ℕ → ℕ
negative none = 0
negative (some n) = if nat_beq n 0 then 0 else if leb n (2 ^ 63) then 2 ^ 64 - n else 2 ^ 63

-- A sign alone is no number.
abbrev digits : Text → Option ℕ
digits s = if is_empty s then none else read_digits 0 s

-- `strconv.Atoi`, without its error.
unfoldable pub atoi : Text → ℕ
atoi [] = 0
atoi (c ∷ cs) =
    if nat_beq c minus_sign
    then negative (digits cs)
    else if nat_beq c 43
    then positive (digits cs)
    else positive (digits (c ∷ cs))

-- The last digits of `n`: 20 are enough for any number below 2 ^ 64.
unfoldable pub show_digits : ℕ → ℕ → Text
show_digits zero n = []
show_digits (suc more) n =
    let front = show_digits more (n / 10) in
    (if ltb n 10 then [] else front) ++ ((48 + n % 10) ∷ [])

-- `strconv.Itoa`.
unfoldable pub itoa : ℕ → Text
itoa n = if ltb n (2 ^ 63) then show_digits 20 n else minus_sign ∷ show_digits 20 (2 ^ 64 - n)

-- The loop of `Reduce` over the values.
unfoldable pub add_values : ℕ → List Text → ℕ
add_values result [] = result
add_values result (value ∷ values) = add_values ((result + atoi value) % 2 ^ 64) values

unfoldable pub reduce_func : Text → List Text → Text
reduce_func key values = itoa (add_values 0 values)
