-- ===== src/Bitcoin/Best.antt =====
-- The test that server/server.go and miner/miner.go of project-2/src/example.com/bitcoin make on each
-- result: the least hash and its nonce are kept, and a least hash of 0 means that there is none yet.
use dsystem_homework.Base.{
  ℕ, ◌≤◌, ◌<◌, inl, inr, ltb, nat_beq, ◌||◌, List, [], ◌∷◌, All, if◌then◌else◌, arith, Bool-cases,
}

pub record Found : Type 0 where
  pub hash : ℕ
  pub nonce : ℕ

abbrev pub nothing : Found
nothing = record { hash = 0; nonce = 0 }

unfoldable pub better : Found → Found → Found
better best r = if nat_beq best.hash 0 || ltb r.hash best.hash then r else best

-- The results in the order in which they come.
unfoldable pub best_of : Found → List Found → Found
best_of best [] = best
best_of best (r ∷ rs) = best_of (better best r) rs

better_least :
    (best r : Found)
    → 0 < best.hash
    → 0 < r.hash
    → let b = better best r in (b.hash ≤ best.hash) × (b.hash ≤ r.hash) × (0 < b.hash)
unfolding better
better_least best r h k = ground arith

best_of_least :
    (best : Found) (rs : List Found)
    → 0 < best.hash
    → All (λ r. 0 < r.hash) rs
    → let b = best_of best rs in (b.hash ≤ best.hash) × All (λ r. b.hash ≤ r.hash) rs
unfolding best_of
best_of_least best [] h all = (omega arith, tt)
best_of_least best (r ∷ rs) h (k, all) =
    let (below, below_r, positive) = better_least best r h k in
    let (rest, rest_all) = best_of_least (better best r) rs positive all in
    (omega arith, (omega arith, rest_all))

better_is : (P : Found → Type 0) (best r : Found) → P best → P r → P (better best r)
unfolding better
better_is P best r p q = elim (Bool-cases (nat_beq best.hash 0 || ltb r.hash best.hash)) [
  | inl new ↦ rw new q
  | inr old ↦ rw old p
]

best_of_is :
    (P : Found → Type 0) (best : Found) (rs : List Found) → P best → All P rs → P (best_of best rs)
unfolding best_of
best_of_is P best [] p all = p
best_of_is P best (r ∷ rs) p (q, all) = best_of_is P (better best r) rs (better_is P best r p q) all

-- Of results with hashes that are not 0, at least one, the merged one has each property that all of
-- them have and a hash that is at most that of each.
pub merge_least :
    (r : Found) (rs : List Found) (P : Found → Type 0)
    → All (λ x. 0 < x.hash) (r ∷ rs)
    → All P (r ∷ rs)
    → let b = best_of nothing (r ∷ rs) in P b × All (λ x. b.hash ≤ x.hash) (r ∷ rs)
unfolding best_of better
merge_least r rs P (h, all) (p, ps) = (best_of_is P r rs p ps, best_of_least r rs h all)
