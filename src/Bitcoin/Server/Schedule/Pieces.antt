-- ===== src/Bitcoin/Server/Schedule/Pieces.antt =====
-- The pieces into which `schedule` of project-2/src/example.com/bitcoin/server/server.go cuts a request.
use native.Mathlib.Decide.{dec_lt}
use dsystem_homework.Base.{
  ℕ, zero, suc, ◌+◌, ◌*◌, ◌^◌, ◌≤◌, ◌<◌, ◌≡◌, refl, List, [], ◌∷◌, ◌++◌, All, All-In, In, here,
  there, factor_positive, arith, length,
}
use dsystem_homework.Bitcoin.Server.{Request, Server}
use dsystem_homework.Bitcoin.Server.Schedule.{Floats, min, pieces, stride_of, on_request}

next_edge : (i step : ℕ) → suc i * step ≡ i * step + step
next_edge i step = omega arith

-- Below 2 ^ 64 nothing wraps.
pieces_cover :
    (r : Request) (step left i lo n : ℕ)
    → i * step ≡ lo
    → 0 < left
    → lo + left * step < 2 ^ 64
    → lo ≤ n
    → n ≤ r.upper
    → n ≤ lo + left * step
    → (q : Request) × In q (pieces r step left i) × (q.lower ≤ n) × (n ≤ q.upper)
unfolding pieces min
pieces_cover r step zero i lo n edge some_left small low high last = absurd (omega arith)
pieces_cover r step (suc left) i lo n edge some_left small low high last =
    let more = next_edge left step in
    let next = next_edge i step in
    elim (dec_lt (lo + step) n) [
      | no mine ↦ (_, here, omega arith, ground (arith, more, next))
      | yes later ↦
          let (q, there_q, below, above) =
            pieces_cover r step left (suc i) (lo + step) n (omega arith)
              (factor_positive left step (omega arith)) (omega arith) (omega arith) high
              (omega arith) in
          (q, there there_q, below, above)
    ]

pieces_same :
    (r : Request) (step left i : ℕ)
    → All
        (λ q. (q.id ≡ r.id) × (q.data_text ≡ r.data_text) × (q.upper ≤ r.upper))
        (pieces r step left i)
unfolding pieces min
pieces_same r step zero i = tt
pieces_same r step (suc left) i = ((refl, refl, ground arith), pieces_same r step left (suc i))

stride_positive :
    (fl : Floats) (upper free : ℕ)
    → (10000 < upper → 0 < fl.floor_log10 upper)
    → 0 < stride_of fl upper free
unfolding stride_of
stride_positive fl upper free logs = elim (dec_lt 10000 upper) [
  | yes big ↦ ground (arith, logs big)
  | no small ↦ ground arith
]

In-append : {A : Type 0} {a : A} (xs ys : List A) → In a ys → In a (xs ++ ys)
In-append [] ys i = i
In-append (x ∷ xs) ys i = there (In-append xs ys i)

-- When `schedule` takes a request, with a logarithm that is positive above 10000, a size of the
-- pieces that is at least the quotient, and no overflow of their product: every nonce up to the
-- request's upper bound lies in a piece that is pending afterwards, which is for the same client
-- and data and ends at the request's upper bound or below.
pub request_covered :
    (fl : Floats) (r : Request) (s : Server) (n : ℕ)
    → let stride = stride_of fl r.upper (length s.free_miners) in
      (10000 < r.upper → 0 < fl.floor_log10 r.upper)
      → r.upper ≤ stride * fl.ceil_div r.upper stride
      → stride * fl.ceil_div r.upper stride < 2 ^ 64
      → n ≤ r.upper
      → (q : Request) × In q (on_request fl r s).pending_requests
        × ((q.id ≡ r.id) × (q.data_text ≡ r.data_text) × (q.upper ≤ r.upper))
        × (q.lower ≤ n)
        × (n ≤ q.upper)
unfolding on_request
request_covered fl r s n logs quotient small high =
    let stride = stride_of fl r.upper (length s.free_miners) in
    let step = fl.ceil_div r.upper stride in
    let (q, cut, below, above) =
      pieces_cover r step stride 0 0 n (omega arith) (stride_positive fl r.upper _ logs)
        (omega arith) (omega arith) high (omega arith) in
    (
      q,
      In-append s.pending_requests _ cut,
      All-In _ cut (pieces_same r step stride 0),
      below,
      above,
    )
