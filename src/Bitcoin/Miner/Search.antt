-- ===== src/Bitcoin/Miner/Search.antt =====
-- What the search of project-2/src/example.com/bitcoin/miner/miner.go finds.
use Prim.Native.String.{String}
use native.Mathlib.Decide.{dec_lt}
use native.Mathlib.Nat.{le_trans, mul-div-le}
use dsystem_homework.Base.{
  ℕ, zero, suc, ◌+◌, ◌-◌, ◌*◌, ◌/◌, ◌%◌, ◌^◌, ◌≤◌, ◌<◌, ◌≡◌, refl, ℤ, pos, List, [], ◌∷◌, some,
  nat_beq, ltb, ◌||◌, arith, All, All-In, All-mono, In, here, there, factor_positive, true, false,
}
use dsystem_homework.Bitcoin.Message.{Message, new_result}
use dsystem_homework.Bitcoin.Best.{Found, nothing, better, best_of, merge_least}
use dsystem_homework.Bitcoin.Miner.{search_from, search, span, workers, mine, mine_with}

module _ (hash : String → ℕ → ℕ) (text : String) (positive : (n : ℕ) → 0 < hash text n) where
  -- The least hash of the nonces from `lo` to `hi`.
  record Least (lo hi : ℕ) (b : Found) : Type 0 where
    real : b.hash ≡ hash text b.nonce
    from : lo ≤ b.nonce
    to : b.nonce ≤ hi
    least : (x : ℕ) → lo ≤ x → x ≤ hi → b.hash ≤ hash text x

  -- With one nonce more, what has the least hash of the range and of the nonce.
  widen :
      (lo hi : ℕ) (b b' : Found)
      → Least lo hi b
      → b'.hash ≡ hash text b'.nonce
      → lo ≤ b'.nonce
      → b'.nonce ≤ suc hi
      → b'.hash ≤ b.hash
      → b'.hash ≤ hash text (suc hi)
      → Least lo (suc hi) b'
  widen lo hi b b' l real from to below below_new = record {
    real = real;
    from = from;
    to = to;
    least = λ x h k. elim (dec_lt hi x) [
      | yes new ↦ let last : x ≡ suc hi = omega arith in rw last below_new
      | no old ↦ omega (arith, l.least x h (omega arith))
    ];
  }

  better-Least :
      (lo hi : ℕ) (b : Found)
      → Least lo hi b
      → Least lo (suc hi) (better b (record { hash = hash text (suc hi); nonce = suc hi }))
  unfolding better
  better-Least lo hi b l =
      let some_hash : 0 < b.hash = rw l.real (positive b.nonce) in
      elim (dec_lt (hash text (suc hi)) b.hash) [
        | yes less ↦
            let new : (nat_beq b.hash 0 || ltb (hash text (suc hi)) b.hash) ≡ true = ground arith in
            rw new (widen lo hi b _ l refl (omega arith) (omega arith) (omega arith) (omega arith))
        | no more ↦
            let old : (nat_beq b.hash 0 || ltb (hash text (suc hi)) b.hash) ≡ false =
              ground arith in
            rw old (widen lo hi b b l l.real l.from (omega arith) (omega arith) (omega arith))
      ]

  search_from-Least :
      (left lo hi top : ℕ) (b : Found)
      → hi + left ≡ top
      → Least lo hi b
      → Least lo top (search_from hash text left (suc hi) b)
  unfolding search_from
  search_from-Least zero lo hi top b e l = let same : hi ≡ top = omega arith in rw (← same) l
  search_from-Least (suc left) lo hi top b e l =
      search_from-Least left lo (suc hi) top _ (omega arith) (better-Least lo hi b l)

  search-Least : (lo hi : ℕ) → lo ≤ hi → Least lo hi (search hash text lo hi)
  unfolding search search_from better
  search-Least lo hi h =
      let rounds : suc hi - lo ≡ suc (hi - lo) = omega arith in
      let start : Least lo lo (record { hash = hash text lo; nonce = lo }) = record {
        real = refl;
        from = omega arith;
        to = omega arith;
        least = λ x k k'. let same : x ≡ lo = omega arith in rw same (omega arith);
      } in
      rw rounds (search_from-Least (hi - lo) lo lo hi _ (omega arith) start)

-- The part of a range that the workers from number `i` on search.
module _ (hash : String → ℕ → ℕ) (m : Message) (positive : (n : ℕ) → 0 < hash m.data_text n) where
  workers_within :
      (s left i at top : ℕ)
      → m.lower + i * s ≡ at
      → at + left * s ≡ top
      → m.lower ≤ at
      → top < 2 ^ 64
      → All
          (λ b.
            (0 < b.hash)
            × (b.hash ≡ hash m.data_text b.nonce)
            × (m.lower ≤ b.nonce)
            × (b.nonce ≤ top))
          (workers hash m s left i)
  unfolding workers
  workers_within s zero i at top start end below small = tt
  workers_within s (suc left) i at top start end below small =
      let lo : (m.lower + i * s) % 2 ^ 64 ≡ m.lower + i * s = omega arith in
      let hi : (m.lower + suc i * s) % 2 ^ 64 ≡ m.lower + suc i * s = omega arith in
      let l =
        search-Least hash m.data_text positive (m.lower + i * s) (m.lower + suc i * s)
          (omega arith) in
      let some_hash =
        positive (search hash m.data_text (m.lower + i * s) (m.lower + suc i * s)).nonce in
      rw (lo, hi)
        (
          (ground (arith, l.real), l.real, omega (arith, l.from), omega (arith, l.to)),
          workers_within s left (suc i) (at + s) top (omega arith) (omega arith) (omega arith)
              small,
        )

  workers_cover :
      (s left i at x : ℕ)
      → m.lower + i * s ≡ at
      → 0 < left
      → at ≤ x
      → x ≤ at + left * s
      → at + left * s < 2 ^ 64
      → (b : Found) × In b (workers hash m s left i) × (b.hash ≤ hash m.data_text x)
  unfolding workers
  workers_cover s zero i at x start some_left low high small = absurd (omega arith)
  workers_cover s (suc left) i at x start some_left low high small =
      let lo : (m.lower + i * s) % 2 ^ 64 ≡ m.lower + i * s = omega arith in
      let hi : (m.lower + suc i * s) % 2 ^ 64 ≡ m.lower + suc i * s = omega arith in
      elim (dec_lt (at + s) x) [
        | no mine ↦
            let l =
              search-Least hash m.data_text positive (m.lower + i * s) (m.lower + suc i * s)
                (omega arith) in
            rw (lo, hi) (_, here, l.least x (omega arith) (omega arith))
        | yes later ↦
            let (b, there_b, below) =
              workers_cover s left (suc i) (at + s) x (omega arith)
                (factor_positive left s (omega arith)) (omega arith) (omega arith) (omega arith) in
            (b, there there_b, below)
      ]

merged :
    (qs : List Found) (P : Found → Type 0) (q : Found)
    → In q qs
    → All (λ x. 0 < x.hash) qs
    → All P qs
    → P (best_of nothing qs) × All (λ x. (best_of nothing qs).hash ≤ x.hash) qs
merged [] P q i some_hash all = absurd (All-In (λ x. ⊥) i tt)
merged (r ∷ rs) P q i some_hash all = merge_least r rs P some_hash all

-- A miner with at least one worker, on a request whose lower bound is at most its upper bound, which
-- is below 2 ^ 64 - 1, and with hashes
-- that are not 0, whatever the order in which the workers' results arrive: it answers with a nonce
-- and its hash, which is the least of the nonces from the lower bound on over as many pieces of
-- `(upper - lower) / w` as there are workers, `w`, and these end at the upper bound or below.
pub mine_least :
    (hash : String → ℕ → ℕ) (floor_log : ℕ → ℤ) (arrive : List Found → List Found) (m : Message)
    (w : ℕ)
    → ((n : ℕ) → 0 < hash m.data_text n)
    → ((P : Found → Type 0) (bs : List Found) → All P bs → All P (arrive bs))
    → ((b : Found) (bs : List Found) → In b bs → In b (arrive bs))
    → m.lower ≤ m.upper
    → suc m.upper < 2 ^ 64
    → floor_log (span m) ≡ pos (suc w)
    → let top = m.lower + suc w * (span m / suc w) in
      (b : Found) × (mine hash floor_log arrive m ≡ some (new_result b.hash b.nonce))
      × (b.hash ≡ hash m.data_text b.nonce)
      × (m.lower ≤ b.nonce)
      × (b.nonce ≤ top)
      × ((x : ℕ) → m.lower ≤ x → x ≤ top → b.hash ≤ hash m.data_text x)
      × (top ≤ m.upper)
unfolding mine mine_with
mine_least hash floor_log arrive m w positive sent received range small started =
    let s = span m / suc w in
    let rs = workers hash m s (suc w) 0 in
    let top = m.lower + suc w * s in
    let whole : span m ≡ m.upper - m.lower = omega arith in
    let top_small : top < 2 ^ 64 = omega (arith, mul-div-le (span m) (suc w)) in
    let within =
      workers_within hash m positive s (suc w) 0 m.lower top (omega arith) refl (omega arith)
        top_small in
    let (first, there_first, _) =
      workers_cover hash m positive s (suc w) 0 m.lower m.lower (omega arith) (omega arith)
        (omega arith) (omega arith) top_small in
    let ((_, real, from, to), least) =
      merged (arrive rs) _ first (received first rs there_first)
        (sent _ rs (All-mono _ _ rs (λ b h. h.0) within)) (sent _ rs within) in
    (
      best_of nothing (arrive rs),
      rw started refl,
      real,
      from,
      to,
      (λ x h k.
          let (b, there_b, below) =
            workers_cover hash m positive s (suc w) 0 m.lower x (omega arith) (omega arith) h
              (omega arith) top_small in
          le_trans (All-In _ (received b rs there_b) least) below),
      omega (arith, mul-div-le (span m) (suc w)),
    )
