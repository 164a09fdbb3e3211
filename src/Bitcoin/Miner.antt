-- ===== src/Bitcoin/Miner.antt =====
-- project-2/src/example.com/bitcoin/miner/miner.go: the search for the nonce with the least hash in a
-- range. `hash` of hash.go, which is SHA-256 of package crypto, is a parameter, and so is the
-- floating-point `floor_log n` for `int(math.Floor(math.Log(float64(n))))`.
pub mod Search
use Prim.Native.String.{String}
use dsystem_homework.Base.{
  ℕ, zero, suc, ◌+◌, ◌-◌, ◌*◌, ◌/◌, ◌%◌, ◌^◌, ◌≤◌, ◌<◌, ◌≡◌, refl, inl, inr, List, [], ◌∷◌, ℤ, pos,
  negsuc, Option, none, some, if◌then◌else◌, nat_beq, arith, All, Bool-cases, true, false,
}
use dsystem_homework.Bitcoin.Message.{Message, new_result}
use dsystem_homework.Bitcoin.Best.{Found, nothing, better, best_of, merge_least}

-- `m.Upper - m.Lower`
abbrev pub span : Message → ℕ
span m = (m.upper + 2 ^ 64 - m.lower) % 2 ^ 64

module _ (hash : String → ℕ → ℕ) where
  -- The loop of a worker: `left` more nonces, the next one `nonce`. For `nonce <= upper` it takes
  -- `upper + 1 - lower` rounds; `upper` stays below 2 ^ 64 - 1, where the code's loop would not end.
  unfoldable pub search_from : String → ℕ → ℕ → Found → Found
  search_from text zero nonce best = best
  search_from text (suc left) nonce best =
      search_from text left (suc nonce)
        (better best (record { hash = hash text nonce; nonce = nonce }))

  unfoldable pub search : String → ℕ → ℕ → Found
  search text lower upper = search_from text (suc upper - lower) lower nothing

  -- What the workers send on `rc`, in the order of their numbers from `i` on.
  unfoldable pub workers : Message → ℕ → ℕ → ℕ → List Found
  workers m s zero i = []
  workers m s (suc left) i =
      search m.data_text ((m.lower + i * s) % 2 ^ 64) ((m.lower + suc i * s) % 2 ^ 64)
      ∷ workers m s left (suc i)

  -- The answer to a request; none is the panic of a division by zero. With a negative number of
  -- workers none starts, and the answer is empty. `arrive` is the order in which `rc` is received.
  mine_with : (List Found → List Found) → Message → ℤ → Option Message
  mine_with arrive m (pos zero) = none
  mine_with arrive m (pos (suc k)) =
      let best = best_of nothing (arrive (workers m (span m / suc k) (suc k) 0)) in
      some (new_result best.hash best.nonce)
  mine_with arrive m (negsuc n) = some (new_result 0 0)

  unfoldable pub mine : (ℕ → ℤ) → (List Found → List Found) → Message → Option Message
  unfolding mine_with
  mine floor_log arrive m = mine_with arrive m (floor_log (span m))
