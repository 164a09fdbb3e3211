-- ===== src/MapReduce/WordCount/Digits.antt =====
-- Numbers as texts, and back, in project-3/src/main/wc.go.
use native.Mathlib.Nat.{pow-suc}
use dsystem_homework.Base.{
  ℕ, zero, suc, ◌+◌, ◌-◌, ◌*◌, ◌/◌, ◌%◌, ◌^◌, ◌<◌, ◌≤◌, ◌≡◌, refl, ap, ◌∙◌, inl, inr, false, [],
  ◌∷◌, ◌++◌, some, Bool-cases, is_empty, arith, if◌then◌else◌, ltb, ltb→lt,
}
use dsystem_homework.MapReduce.Text.{Text}
use dsystem_homework.MapReduce.WordCount.{minus_sign, atoi, itoa, show_digits, read_digits}

read_digits-snoc :
    (n d : ℕ) (front : Text) {value : ℕ}
    → read_digits n front ≡ some value
    → d < 10
    → read_digits n (front ++ (48 + d) ∷ []) ≡ some (10 * value + d)
unfolding read_digits
read_digits-snoc n d [] h small = ground arith
read_digits-snoc n d (c ∷ front) {value} h small =
    ground (arith, read_digits-snoc (10 * n + (c - 48)) d front {value = value})

read_digits-show_digits : (more n : ℕ) → n < 10 ^ more → read_digits 0 (show_digits more n) ≡ some n
unfolding show_digits read_digits
read_digits-show_digits zero n small = ground arith
read_digits-show_digits (suc more) n small = elim (Bool-cases (ltb n 10)) [
  | inl short ↦
      let same : 10 * 0 + n % 10 ≡ n = omega (arith, ltb→lt n 10 short) in
      rw short (read_digits-snoc 0 (n % 10) [] refl (omega arith) ∙ ap some same)
  | inr long ↦
      let same : 10 * (n / 10) + n % 10 ≡ n = omega arith in
      rw long (
        read_digits-snoc 0 (n % 10) (show_digits more (n / 10))
          (read_digits-show_digits more (n / 10) (omega (arith, pow-suc 10 more))) (omega arith)
        ∙ ap some same)
]

some_digits : (more n : ℕ) → is_empty (show_digits (suc more) n) ≡ false
unfolding show_digits
some_digits more n = snoc_some (if ltb n 10 then [] else show_digits more (n / 10)) (48 + n % 10)
  where
    snoc_some : (cs : Text) (c : ℕ) → is_empty (cs ++ c ∷ []) ≡ false
    snoc_some [] c = refl
    snoc_some (d ∷ cs) c = refl

atoi_positive :
    (s : Text) {n : ℕ} → is_empty s ≡ false → read_digits 0 s ≡ some n → n < 2 ^ 63 → atoi s ≡ n
unfolding atoi read_digits
atoi_positive [] some_digit h small = cc
atoi_positive (c ∷ cs) some_digit h small = ground arith

atoi_negative :
    (s : Text) {n : ℕ}
    → is_empty s ≡ false
    → read_digits 0 s ≡ some n
    → 0 < n
    → n ≤ 2 ^ 63
    → atoi (minus_sign ∷ s) ≡ 2 ^ 64 - n
unfolding atoi
atoi_negative s some_digit h large small = rw (some_digit, h) (ground arith)

-- Printing a number of 64 bits and reading it gives the number again, negative ones included.
pub atoi-itoa : (n : ℕ) → n < 2 ^ 64 → atoi (itoa n) ≡ n
unfolding atoi itoa
atoi-itoa n small = elim (Bool-cases (ltb n (2 ^ 63))) [
  | inl small_n ↦ rw small_n (
      atoi_positive (show_digits 20 n) (some_digits 19 n)
        (read_digits-show_digits 20 n (omega arith)) (ltb→lt n (2 ^ 63) small_n))
  | inr large ↦
      let above : 2 ^ 63 ≤ n = ground arith in
      let back : 2 ^ 64 - (2 ^ 64 - n) ≡ n = omega arith in
      rw large (
        atoi_negative (show_digits 20 (2 ^ 64 - n)) (some_digits 19 (2 ^ 64 - n))
          (read_digits-show_digits 20 (2 ^ 64 - n) (omega arith)) (omega arith) (omega arith)
        ∙ back)
]
