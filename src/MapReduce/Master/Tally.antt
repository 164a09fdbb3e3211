-- ===== src/MapReduce/Master/Tally.antt =====
-- Counting jobs with weights: a weight that is 1 for one job counts that job, the constant 1 all.
use native.Mathlib.Decide.{dec_lt}
use dsystem_homework.Base.{
  ℕ, zero, suc, ◌+◌, ◌≤◌, ◌<◌, ◌≡◌, refl, List, [], ◌∷◌, ◌++◌, length, nat_beq, ltb, if◌then◌else◌,
  inl, inr, Bool-cases, arith,
}
use dsystem_homework.MapReduce.Master.{
  Runner, wants_map, calls_map, wants_reduce, calls_reduce, returned, jobs_from,
}

unfoldable pub tally : (ℕ → ℕ) → List ℕ → ℕ
tally g [] = 0
tally g (j ∷ js) = g j + tally g js

abbrev pub held_map : (ℕ → ℕ) → Runner → ℕ
held_map g (calls_map j) = g j
held_map g _ = 0

abbrev pub held_reduce : (ℕ → ℕ) → Runner → ℕ
held_reduce g (calls_reduce j) = g j
held_reduce g _ = 0

unfoldable pub weigh : (Runner → ℕ) → List Runner → ℕ
weigh h [] = 0
weigh h (w ∷ ws) = h w + weigh h ws

pub tally-append : (g : ℕ → ℕ) (xs ys : List ℕ) → tally g (xs ++ ys) ≡ tally g xs + tally g ys
unfolding tally
tally-append g [] ys = omega arith
tally-append g (x ∷ xs) ys = omega (arith, tally-append g xs ys)

pub weigh-append :
    (h : Runner → ℕ) (xs ys : List Runner) → weigh h (xs ++ ys) ≡ weigh h xs + weigh h ys
unfolding weigh
weigh-append h [] ys = omega arith
weigh-append h (x ∷ xs) ys = omega (arith, weigh-append h xs ys)

pub tally-length : (xs : List ℕ) → tally (λ j. 1) xs ≡ length xs
unfolding tally
tally-length [] = refl
tally-length (x ∷ xs) = omega (arith, tally-length xs)

-- How often a job occurs.
abbrev pub is_job : ℕ → ℕ → ℕ
is_job k j = if nat_beq j k then 1 else 0

abbrev pub times : ℕ → List ℕ → ℕ
times k = tally (is_job k)

-- Nothing that is counted weighs nothing.
pub tally-none : (g : ℕ → ℕ) (xs : List ℕ) → length xs ≤ 0 → tally g xs ≡ 0
unfolding tally
tally-none g [] h = refl
tally-none g (x ∷ xs) h = absurd (omega arith)

pub weigh-none :
    (h h' : Runner → ℕ) (ws : List Runner)
    → ((w : Runner) → h w ≤ 0 → h' w ≡ 0)
    → weigh h ws ≤ 0
    → weigh h' ws ≡ 0
unfolding weigh
weigh-none h h' [] none below = refl
weigh-none h h' (w ∷ ws) none below =
    omega (arith, none w (omega arith), weigh-none h h' ws none (omega arith))

pub held_map_none : (g : ℕ → ℕ) (w : Runner) → held_map (λ j. 1) w ≤ 0 → held_map g w ≡ 0
held_map_none g wants_map h = refl
held_map_none g (calls_map j) h = absurd (omega arith)
held_map_none g wants_reduce h = refl
held_map_none g (calls_reduce j) h = refl
held_map_none g returned h = refl

pub held_reduce_none : (g : ℕ → ℕ) (w : Runner) → held_reduce (λ j. 1) w ≤ 0 → held_reduce g w ≡ 0
held_reduce_none g wants_map h = refl
held_reduce_none g (calls_map j) h = refl
held_reduce_none g wants_reduce h = refl
held_reduce_none g (calls_reduce j) h = absurd (omega arith)
held_reduce_none g returned h = refl

pub jobs_from-length : (i n : ℕ) → length (jobs_from i n) ≡ n
unfolding jobs_from
jobs_from-length i zero = refl
jobs_from-length i (suc n) = omega (arith, jobs_from-length (suc i) n)

pub jobs_from-times_below : (k i n : ℕ) → k < i → times k (jobs_from i n) ≡ 0
unfolding jobs_from tally
jobs_from-times_below k i zero h = refl
jobs_from-times_below k i (suc n) h =
    ground (arith, jobs_from-times_below k (suc i) n (omega arith))

pub jobs_from-times : (k i n : ℕ) → i ≤ k → k < i + n → times k (jobs_from i n) ≡ 1
unfolding jobs_from tally
jobs_from-times k i zero h l = absurd (omega arith)
jobs_from-times k i (suc n) h l = elim (dec_lt i k) [
  | yes more ↦ ground (arith, jobs_from-times k (suc i) n (omega arith) (omega arith))
  | no same ↦ ground (arith, jobs_from-times_below k (suc i) n (omega arith))
]

jobs_from-times_above : (k i n : ℕ) → i + n ≤ k → times k (jobs_from i n) ≡ 0
unfolding jobs_from tally
jobs_from-times_above k i zero h = refl
jobs_from-times_above k i (suc n) h =
    ground (arith, jobs_from-times_above k (suc i) n (omega arith))

-- A job is on its channel once, and no other number is.
pub jobs_from-times_once : (k n : ℕ) → times k (jobs_from 0 n) ≡ (if ltb k n then 1 else 0)
jobs_from-times_once k n = elim (Bool-cases (ltb k n)) [
  | inl below ↦ rw below (jobs_from-times k 0 n (omega arith) (ground arith))
  | inr above ↦ rw above (jobs_from-times_above k 0 n (ground arith))
]
