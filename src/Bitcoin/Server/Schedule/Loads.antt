-- ===== src/Bitcoin/Server/Schedule/Loads.antt =====
-- How many pieces of a client's request are pending or with a miner, as the handlers of
-- project-2/src/example.com/bitcoin/server/server.go change it.
use dsystem_homework.Base.{
  ℕ, zero, suc, ◌+◌, ◌≤◌, ◌≡◌, inl, inr, ℤ, int_eq, int_beq, List, [], ◌∷◌, ◌++◌, some, none,
  if◌then◌else◌, Dict, lookup, insert, delete, arith, Bool-cases,
}
use dsystem_homework.Bitcoin.Server.{Request, Miner}
use dsystem_homework.Bitcoin.Server.Schedule.{pieces}

abbrev pub one : ℤ → ℤ → ℕ
one a b = if int_beq a b then 1 else 0

unfoldable pub pend : ℤ → List Request → ℕ
pend id [] = 0
pend id (r ∷ rs) = one r.id id + pend id rs

unfoldable pub busy : ℤ → Dict ℤ Miner → ℕ
busy id [] = 0
busy id ((k, mn) ∷ m) = one mn.client_id id + busy id m

pub pend-append : (id : ℤ) (rs qs : List Request) → pend id (rs ++ qs) ≡ pend id rs + pend id qs
unfolding pend
pend-append id [] qs = omega arith
pend-append id (r ∷ rs) qs = omega (arith, pend-append id rs qs)

pub pend-pieces :
    (id : ℤ) (r : Request) (step left i : ℕ)
    → pend id (pieces r step left i) ≡ (if int_beq r.id id then left else 0)
unfolding pend pieces
pend-pieces id r step zero i = ground arith
pend-pieces id r step (suc left) i = ground (arith, pend-pieces id r step left (suc i))

pub busy-insert_new :
    (id k : ℤ) (mn : Miner) (m : Dict ℤ Miner)
    → lookup k m ≡ none
    → busy id (insert k mn m) ≡ busy id m + one mn.client_id id
unfolding busy insert lookup
busy-insert_new id k mn [] e = omega arith
busy-insert_new id k mn ((j, old) ∷ m) e = elim (Bool-cases (int_beq j k)) [
  | inl hit ↦ let clash : some old ≡ none = rw hit at e in cc
  | inr miss ↦ rw miss (omega (arith, busy-insert_new id k mn m (rw miss at e)))
]

pub busy-insert :
    (id k : ℤ) (mn old : Miner) (m : Dict ℤ Miner)
    → lookup k m ≡ some old
    → busy id (insert k mn m) + one old.client_id id ≡ busy id m + one mn.client_id id
unfolding busy insert lookup
busy-insert id k mn old [] e = cc
busy-insert id k mn old ((j, first) ∷ m) e = elim (Bool-cases (int_beq j k)) [
  | inl hit ↦ let same : first ≡ old = ground (arith, rw hit at e) in rw hit (rw same (omega arith))
  | inr miss ↦ rw miss (omega (arith, busy-insert id k mn old m (rw miss at e)))
]

pub busy-delete-le : (id k : ℤ) (m : Dict ℤ Miner) → busy id (delete k m) ≤ busy id m
unfolding busy delete
busy-delete-le id k [] = omega arith
busy-delete-le id k ((j, mn) ∷ m) = ground (arith, busy-delete-le id k m)

pub busy-delete :
    (id k : ℤ) (old : Miner) (m : Dict ℤ Miner)
    → lookup k m ≡ some old
    → busy id (delete k m) + one old.client_id id ≤ busy id m
unfolding busy delete lookup
busy-delete id k old [] e = cc
busy-delete id k old ((j, first) ∷ m) e = elim (Bool-cases (int_beq j k)) [
  | inl hit ↦
      let same : first ≡ old = ground (arith, rw hit at e) in
      rw hit (rw same (omega (arith, busy-delete-le id k m)))
  | inr miss ↦ rw miss (omega (arith, busy-delete id k old m (rw miss at e)))
]
