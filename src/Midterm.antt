-- ===== src/Midterm.antt =====
-- midterm.go: `fibonacci`, which fills a channel. An `int` of 64 bits is a number below 2 ^ 64.
use dsystem_homework.Base.{ℕ, zero, suc, ◌+◌, ◌%◌, ◌^◌, ◌≡◌, refl, ap, ◌∙◌, List, [], ◌∷◌, arith}

-- The loop, with `left` sends to go.
unfoldable pub fibonacci_from : ℕ → ℕ → ℕ → List ℕ
fibonacci_from x y zero = []
fibonacci_from x y (suc left) = x ∷ fibonacci_from y ((x + y) % 2 ^ 64) left

-- What is sent on a channel of this capacity, before it is closed.
unfoldable pub fibonacci : ℕ → List ℕ
fibonacci capacity = fibonacci_from 0 1 capacity

-- The Fibonacci numbers.
unfoldable pub fib : ℕ → ℕ
fib zero = 0
fib (suc zero) = 1
fib (suc (suc n)) = fib (suc n) + fib n

unfoldable pub fibs_from : ℕ → ℕ → List ℕ
fibs_from n zero = []
fibs_from n (suc left) = fib n % 2 ^ 64 ∷ fibs_from (suc n) left

fibonacci_from-fib :
    (n left : ℕ) → fibonacci_from (fib n % 2 ^ 64) (fib (suc n) % 2 ^ 64) left ≡ fibs_from n left
unfolding fibonacci_from fibs_from fib
fibonacci_from-fib n zero = refl
fibonacci_from-fib n (suc left) =
    let sum : (fib n % 2 ^ 64 + fib (suc n) % 2 ^ 64) % 2 ^ 64 ≡ fib (suc (suc n)) % 2 ^ 64 =
      omega arith in
    ap (◌∷◌ (fib n % 2 ^ 64))
      (ap (λ y. fibonacci_from (fib (suc n) % 2 ^ 64) y left) sum ∙ fibonacci_from-fib (suc n) left)

-- The numbers on the channel are the Fibonacci numbers from the first on, as an `int` holds them.
pub fibonacci_lem : (capacity : ℕ) → fibonacci capacity ≡ fibs_from 0 capacity
unfolding fibonacci fib
fibonacci_lem capacity = fibonacci_from-fib 0 capacity
