-- ===== src/MapReduce/WordCount/Counts.antt =====
-- The values of a word in the word count of project-3/src/main/wc.go, and their sum.
use dsystem_homework.Base.{
  ℕ, zero, suc, ◌+◌, ◌%◌, ◌^◌, ◌<◌, ◌≡◌, refl, ap, sym, ◌∙◌, inl, inr, false, List, [], ◌∷◌, ◌++◌,
  map, append_assoc, append-nil, Bool, Bool-cases, arith, All, if◌then◌else◌, bytes_key, bytes_beq,
}
use dsystem_homework.MapReduce.Text.{Text}
use dsystem_homework.MapReduce.Split.{newline}
use dsystem_homework.MapReduce.Split.Lines.{join, EndsLine}
use dsystem_homework.MapReduce.Jobs.Gather.{values_of, values_in}
use dsystem_homework.MapReduce.WordCount.{
  fields_func, map_func, add_values, atoi, itoa, reduce_func, read_digits,
}
use dsystem_homework.MapReduce.WordCount.Fields.{fields_func-parted}

abbrev pub one : Text
one = 49 ∷ []

unfoldable pub replicate : ℕ → Text → List Text
replicate zero value = []
replicate (suc n) value = value ∷ replicate n value

-- How often a word is in a list.
unfoldable pub count : Text → List Text → ℕ
count w [] = 0
count w (v ∷ vs) = let rest = count w vs in if bytes_beq v w then suc rest else rest

replicate-add :
    (m n : ℕ) (value : Text) → replicate m value ++ replicate n value ≡ replicate (m + n) value
unfolding replicate
replicate-add zero n value = let same : n ≡ 0 + n = omega arith in ap (λ k. replicate k value) same
replicate-add (suc m) n value =
    let same : suc (m + n) ≡ suc m + n = omega arith in
    ap (◌∷◌ value) (replicate-add m n value) ∙ ap (λ k. replicate k value) same

count-append : (w : Text) (us vs : List Text) → count w (us ++ vs) ≡ count w us + count w vs
unfolding count
count-append w [] vs = omega arith
count-append w (u ∷ us) vs = ground (arith, count-append w us vs)

module _ (is_letter : ℕ → Bool) where
  values_of-map_func :
      (w : Text) (words : List Text)
      → values_of {K = Text} {V = Text} w (map (λ s. record { key = s; value = one }) words)
        ≡ replicate (count w words) one
  unfolding count replicate
  values_of-map_func w [] = refl
  values_of-map_func w (v ∷ words) = elim (Bool-cases (bytes_beq v w)) [
    | inl hit ↦ rw (hit, values_of-map_func w words) refl
    | inr miss ↦ rw (miss, values_of-map_func w words) refl
  ]

  fields_func-EndsLine :
      (a b : Text)
      → is_letter newline ≡ false
      → EndsLine a
      → fields_func is_letter [] (a ++ b) ≡ fields_func is_letter [] a ++ fields_func is_letter [] b
  unfolding EndsLine fields_func
  fields_func-EndsLine a b n (inl empty) = rw empty refl
  fields_func-EndsLine a b n (inr (front, ends)) = rw ends (
      rw append_assoc (fields_func-parted is_letter newline [] front b n)
      ∙ ap (λ ws. ws ++ fields_func is_letter [] b)
          (sym (fields_func-parted is_letter newline [] front [] n ∙ append-nil _)))

  -- The map jobs give, for a word, a 1 for each time that it is in the text of their files.
  pub values_in-map_func :
      (w : Text) (files : List Text)
      → is_letter newline ≡ false
      → All EndsLine files
      → values_in {K = Text} {V = Text} w (map (map_func is_letter) files)
        ≡ replicate (count w (fields_func is_letter [] (join files))) one
  unfolding map_func join fields_func count replicate
  values_in-map_func w [] n ends = refl
  values_in-map_func w (file ∷ files) n (end, ends) =
      ap (◌++◌ (values_of w (map_func is_letter file))) (values_in-map_func w files n ends)
      ∙ ap (λ vs. vs ++ replicate (count w (fields_func is_letter [] (join files))) one)
          (values_of-map_func w (fields_func is_letter [] file))
      ∙ replicate-add (count w (fields_func is_letter [] file)) _ one
      ∙ ap (λ k. replicate k one) (sym (count-append w _ _))
      ∙ ap (λ ws. replicate (count w ws) one) (sym (fields_func-EndsLine file (join files) n end))

add_values-replicate :
    (result n : ℕ) → result < 2 ^ 64 → add_values result (replicate n one) ≡ (result + n) % 2 ^ 64
unfolding add_values replicate atoi read_digits
add_values-replicate result zero small = omega arith
add_values-replicate result (suc n) small =
    omega (arith, add_values-replicate ((result + 1) % 2 ^ 64) n (omega arith))

-- A sum of ones is their number, which wraps as an `int` does.
pub reduce_func-replicate : (w : Text) (n : ℕ) → reduce_func w (replicate n one) ≡ itoa (n % 2 ^ 64)
unfolding reduce_func
reduce_func-replicate w n =
    let sum : add_values 0 (replicate n one) ≡ n % 2 ^ 64 =
      omega (arith, add_values-replicate 0 n (omega arith)) in
    ap itoa sum
