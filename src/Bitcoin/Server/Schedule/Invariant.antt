-- ===== src/Bitcoin/Server/Schedule/Invariant.antt =====
-- What `schedule` of project-2/src/example.com/bitcoin/server/server.go keeps, and that requests,
-- joins and triggers keep it.
use dsystem_homework.Base.{
  ℕ, zero, suc, ◌+◌, ◌≤◌, ◌<◌, ◌≡◌, ◌≢◌, refl, sym, inl, inr, ℤ, pos, int_eq, int_beq, int_beq_iff,
  Bool, List, [], ◌∷◌, ◌++◌, length, Option, some, none, if◌then◌else◌, Dict, lookup, insert,
  lookup-insert, All, All-append, arith, Bool-cases, Option-cases,
}
use dsystem_homework.Bitcoin.Message.{new_request}
use dsystem_homework.Bitcoin.Server.{Task, Request, Miner, Server}
use dsystem_homework.Bitcoin.Server.Schedule.{
  Floats, pieces, Outcome, stride_of, on_request, assign, dispatch, on_trigger, on_join,
}
use dsystem_homework.Bitcoin.Server.Schedule.Loads.{
  one, pend, busy, pend-append, pend-pieces, busy-insert_new, busy-insert,
}

-- A task counts at least the pieces that are pending or with a miner.
abbrev pub Counts : ℕ → Option Task → Type 0
Counts load none = load ≡ 0
Counts load (some t) = (n : ℕ) × (t.miners ≡ pos n) × (load ≤ n)

abbrev pub load : ℤ → Server → ℕ
load id s = pend id s.pending_requests + busy id s.miners

pub record Inv (s : Server) : Type 0 where
  pub counted : (id : ℤ) → id ≢ pos 0 → Counts (load id s) (lookup id s.tasks)
  pub named : All (λ r. r.id ≢ pos 0) s.pending_requests

pub Counts-le : (a b : ℕ) (t : Option Task) → a ≤ b → Counts b t → Counts a t
Counts-le a b none h c = omega arith
Counts-le a b (some t) h (n, e, below) = (n, e, omega arith)

-- With a load there is a task.
pub loaded : (load : ℕ) (t : Option Task) → 0 < load → Counts load t → (u : Task) × (t ≡ some u)
loaded load none h c = absurd (omega arith)
loaded load (some t) h c = (t, refl)

-- The invariant reads four fields, and the loads of the third may go down.
pub lighter :
    {s s' : Server}
    → s'.tasks ≡ s.tasks
    → ((id : ℤ) → id ≢ pos 0 → load id s' ≤ load id s)
    → All (λ r. r.id ≢ pos 0) s'.pending_requests
    → Inv s
    → Inv s'
lighter {s} {s'} same less named inv = record {
  counted = λ id h. rw same (Counts-le _ _ (lookup id s.tasks) (less id h) (inv.counted id h));
  named = named;
}

abbrev pub Fine : Outcome → Type 0
Fine none = ⊥
Fine (some (s, written)) = Inv s

pub busy-join :
    (id k : ℤ) (mn : Miner) (m : Dict ℤ Miner)
    → mn.client_id ≢ id
    → busy id (insert k mn m) ≤ busy id m
busy-join id k mn m other =
    let none_more : one mn.client_id id ≡ 0 = ground (arith, int_beq_iff mn.client_id id) in
    elim (Option-cases (lookup k m)) [
      | inl e ↦ omega (arith, busy-insert_new id k mn m e)
      | inr (old, e) ↦ omega (arith, busy-insert id k mn old m e)
    ]

pub busy-insert-le :
    (id k : ℤ) (mn : Miner) (m : Dict ℤ Miner)
    → busy id (insert k mn m) ≤ busy id m + one mn.client_id id
busy-insert-le id k mn m = elim (Option-cases (lookup k m)) [
  | inl e ↦ omega (arith, busy-insert_new id k mn m e)
  | inr (old, e) ↦ omega (arith, busy-insert id k mn old m e)
]

pub on_join-Inv : (id : ℤ) (s : Server) → Inv s → Inv (on_join id s)
unfolding on_join
on_join-Inv id s inv =
    lighter refl (λ i h. omega (arith, busy-join i id _ s.miners (λ e. h (sym e)))) inv.named inv

All-pieces :
    (r : Request) (step left i : ℕ) → r.id ≢ pos 0 → All (λ q. q.id ≢ pos 0) (pieces r step left i)
unfolding pieces
All-pieces r step zero i h = tt
All-pieces r step (suc left) i h = (h, All-pieces r step left (suc i) h)

pub on_request-Inv :
    (fl : Floats) (r : Request) (s : Server)
    → r.id ≢ pos 0
    → lookup r.id s.tasks ≡ none
    → Inv s
    → Inv (on_request fl r s)
unfolding on_request
on_request-Inv fl r s real new inv = record {
  counted = λ id h. elim (Bool-cases (int_beq r.id id)) [
    | inl same ↦
        let mine : lookup id s.tasks ≡ none = rw (← (int_beq_iff r.id id).0 same) new in
        let unloaded : Counts (load id s) none = rw mine at (inv.counted id h) in
        rw (lookup-insert, same) (stride, refl, ground (arith, loads id, unloaded))
    | inr other ↦
        rw (lookup-insert, other)
          (Counts-le _ _ (lookup id s.tasks) (ground (arith, loads id)) (inv.counted id h))
  ];
  named = All-append _ s.pending_requests _ inv.named (All-pieces r _ _ 0 real);
}
  where
    stride : ℕ
    stride = stride_of fl r.upper (length s.free_miners)

    loads :
        (id : ℤ) → load id (on_request fl r s) ≤ load id s + (if int_beq r.id id then stride else 0)
    loads id = omega (
      arith,
      pend-append id s.pending_requests (pieces r (fl.ceil_div r.upper stride) stride 0),
      pend-pieces id r (fl.ceil_div r.upper stride) stride 0,
    )

dispatch-Fine :
    (written : Bool) (mid : ℤ) (free : List ℤ) (r : Request) (rest : List Request) (s : Server)
    → s.pending_requests ≡ r ∷ rest
    → Inv s
    → Fine (dispatch written mid free r rest s)
unfolding dispatch pend
dispatch-Fine written mid free r rest s head inv =
    let (u, there) = loaded (load r.id s) (lookup r.id s.tasks) mine (inv.counted r.id named.0) in
    rw (there, dispatch) (branches u)
  where
    named : All (λ q. q.id ≢ pos 0) (r ∷ rest)
    named = rw head at inv.named

    split : (id : ℤ) → pend id s.pending_requests ≡ one r.id id + pend id rest
    split id = rw head refl

    mine : 0 < load r.id s
    mine = ground (arith, split r.id, int_beq_iff r.id r.id)

    branches :
        (u : Task)
        → Fine (
            if u.lost
            then some (record s { pending_requests = rest }, [])
            else if written
            then some
                (assign mid free r rest s, (mid, new_request r.data_text r.lower r.upper) ∷ [])
            else some (record s { errors = s.errors ++ mid ∷ [] }, []))
    branches u = elim (Bool-cases u.lost) [
      | inl lost ↦ rw lost (lighter refl (λ id h. omega (arith, split id)) named.1 inv)
      | inr kept ↦ elim (Bool-cases written) [
        | inl ok ↦
            rw (kept, ok)
              (lighter refl (λ id h. omega (arith, split id, busy-insert-le id mid _ s.miners))
                named.1 inv)
        | inr failed ↦ rw (kept, failed) (lighter refl (λ id h. omega arith) inv.named inv)
      ]
    ]

pub on_trigger-Fine :
    (written : Bool) (free : List ℤ) (rs : List Request) (s : Server)
    → s.pending_requests ≡ rs
    → Inv s
    → Fine (on_trigger written free rs s)
unfolding on_trigger
on_trigger-Fine written [] rs s e inv = inv
on_trigger-Fine written (mid ∷ free) [] s e inv = inv
on_trigger-Fine written (mid ∷ free) (r ∷ rest) s e inv =
    dispatch-Fine written mid free r rest s e inv
