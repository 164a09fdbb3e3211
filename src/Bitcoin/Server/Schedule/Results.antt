-- ===== src/Bitcoin/Server/Schedule/Results.antt =====
-- Results and lost connections in `schedule` of project-2/src/example.com/bitcoin/server/server.go.
use dsystem_homework.Base.{
  ℕ, zero, suc, ◌+◌, ◌≤◌, ◌<◌, ◌≡◌, ◌≢◌, refl, subst, inl, inr, ℤ, pos, int_eq, int_beq,
  int_beq_iff, Option, some, none, if◌then◌else◌, Dict, lookup, insert, lookup-insert,
  lookup-delete, arith, Bool-cases, Option-cases,
}
use dsystem_homework.Bitcoin.Server.{Task, Result, Miner, Server}
use dsystem_homework.Bitcoin.Server.Schedule.{
  one_less, count_result, free_miner, finish, take_result, on_result,
}
use dsystem_homework.Bitcoin.Server.Schedule.Loads.{one, pend, busy, busy-insert, busy-delete}
use dsystem_homework.Bitcoin.Server.Schedule.Invariant.{Counts, Counts-le, load, Inv, loaded, Fine}

-- A miner with a client's piece is part of that client's load.
pub busy-one :
    (id k : ℤ) (mn : Miner) (m : Dict ℤ Miner)
    → lookup k m ≡ some mn
    → one mn.client_id id ≤ busy id m
busy-one id k mn m e = omega (arith, busy-delete id k mn m e)

pub one_self : (id : ℤ) → one id id ≡ 1
one_self id = ground (arith, int_beq_iff id id)

one_less-pos : (z : ℤ) (n : ℕ) → z ≡ pos n → 0 < n → (k : ℕ) × (one_less z ≡ pos k) × (suc k ≡ n)
unfolding one_less
one_less-pos z zero e h = absurd (omega arith)
one_less-pos z (suc n) e h = (n, rw e refl, refl)

-- The miner is free again: its piece is no load any more.
freed :
    (id : ℤ) (r : Result) (mn : Miner) (s : Server)
    → lookup r.id s.miners ≡ some mn
    → id ≢ pos 0
    → busy id (insert r.id (record mn { client_id = pos 0 }) s.miners) + one mn.client_id id
      ≡ busy id s.miners
freed id r mn s e h =
    let none_more : one (pos 0) id ≡ 0 = ground (arith, int_beq_iff (pos 0) id) in
    omega (arith, busy-insert id r.id (record mn { client_id = pos 0 }) mn s.miners e)

module _ (r : Result) (mn : Miner) (s : Server) (e : lookup r.id s.miners ≡ some mn)
    (inv : Inv s) where
  after : ℤ → ℕ
  after id =
      pend id s.pending_requests + busy id (insert r.id (record mn { client_id = pos 0 }) s.miners)

  after_less : (id : ℤ) → id ≢ pos 0 → after id + one mn.client_id id ≡ load id s
  unfolding after
  after_less id h = omega (arith, freed id r mn s e h)

  -- Whatever becomes of the client's task, the table counts the pieces as long as the task does.
  put_back :
      (tasks : Dict ℤ Task) (own : Option Task)
      → ((id : ℤ) → lookup id tasks ≡ (if int_beq mn.client_id id then own else lookup id s.tasks))
      → Counts (after mn.client_id) own
      → Inv (free_miner r.id mn (record s { tasks = tasks }))
  unfolding after
  put_back tasks own table enough = record {
    counted = λ id h. elim (Bool-cases (int_beq mn.client_id id)) [
      | inl same ↦
          rw (table id, same)
            (subst (λ z. Counts (after z) own) ((int_beq_iff mn.client_id id).0 same) enough)
      | inr other ↦
          rw (table id, other)
            (Counts-le _ _ (lookup id s.tasks) (omega (arith, after_less id h)) (inv.counted id h))
    ];
    named = inv.named;
  }

  finish-Inv :
      (u : Task)
      → mn.client_id ≢ pos 0
      → lookup mn.client_id s.tasks ≡ some u
      → Inv (finish r mn (count_result r.found u) s).0
  unfolding finish
  finish-Inv u real there =
      let (n, count, below) : Counts (load mn.client_id s) (some u) =
        rw there at (inv.counted mn.client_id real) in
      let some_load = busy-one mn.client_id r.id mn s.miners e in
      let self = one_self mn.client_id in
      let (k, less, next) = one_less-pos u.miners n count (omega arith) in
      let left = after_less mn.client_id real in
      elim (Bool-cases (int_beq (one_less u.miners) (pos 0))) [
        | inl last ↦ rw last (
            put_back _ none (λ id. lookup-delete mn.client_id id s.tasks)
              (ground (arith, int_beq_iff (one_less u.miners) (pos 0))))
        | inr more ↦ rw more (
            put_back _ (some (count_result r.found u))
              (λ id. lookup-insert mn.client_id id (count_result r.found u) s.tasks)
              (k, less, omega arith))
      ]

take_result-Fine :
    (r : Result) (mn : Miner) (s : Server)
    → lookup r.id s.miners ≡ some mn
    → mn.client_id ≢ pos 0
    → Inv s
    → Fine (take_result r mn s)
unfolding take_result
take_result-Fine r mn s e real inv =
    let some_load = busy-one mn.client_id r.id mn s.miners e in
    let self = one_self mn.client_id in
    let (u, there) =
      loaded (load mn.client_id s) (lookup mn.client_id s.tasks) (omega arith)
        (inv.counted mn.client_id real) in
    rw (there, take_result) (finish-Inv r mn s e inv u real there)

pub on_result-Fine : (r : Result) (s : Server) → Inv s → Fine (on_result r s)
unfolding on_result
on_result-Fine r s inv = elim (Option-cases (lookup r.id s.miners)) [
  | inl e ↦ rw (e, on_result) inv
  | inr (mn, e) ↦ elim (Bool-cases (int_beq mn.client_id (pos 0))) [
    | inl idle ↦ rw (e, on_result, idle) inv
    | inr working ↦
        rw (e, on_result, working)
          (take_result-Fine r mn s e (λ z. cc (working, (int_beq_iff mn.client_id (pos 0)).1 z))
            inv)
  ]
]
