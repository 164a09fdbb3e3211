-- ===== src/Bitcoin/Server/Schedule/Wakes.antt =====
-- The triggers of `schedule` in project-2/src/example.com/bitcoin/server/server.go: who waits while a
-- miner is free and a piece is pending.
use dsystem_homework.Base.{
  ◌<◌, ◌≡◌, ◌≢◌, ◌⊎◌, refl, inl, inr, ℤ, pos, int_eq, int_beq, int_beq_iff, Bool, true, false, ◌&&◌,
  not, List, [], ◌∷◌, Option, some, none, Dict, lookup, insert, delete, lookup-insert,
  lookup-delete, arith, Bool-cases, Option-cases, All,
}
use dsystem_homework.Bitcoin.Server.{Request, Result, Task, Miner, Server}
use dsystem_homework.Bitcoin.Server.Schedule.{
  Floats, Outcome, on_request, on_trigger, dispatch, on_join, on_result, take_result, finish,
  count_result, on_error, lose_miner, lose_client, drop_free, remove_dead,
}

-- Some miner has a piece.
pub record Busy (miners : Dict ℤ Miner) : Type 0 where
  pub id : ℤ
  pub miner : Miner
  pub held : lookup id miners ≡ some miner
  pub works : miner.client_id ≢ pos 0

-- No client was lost, and if a miner is free and a piece is pending, then a trigger waits or some
-- miner has a piece.
pub record Wakes (s : Server) : Type 0 where
  pub none_lost : (id : ℤ) (t : Task) → lookup id s.tasks ≡ some t → t.lost ≡ false
  pub awake : (s.free_miners ≡ []) ⊎ (s.pending_requests ≡ []) ⊎ (0 < s.triggers) ⊎ Busy s.miners

-- What a round leaves, if it does not panic.
abbrev pub After : Outcome → Type 0
After none = Unit
After (some (s, written)) = Wakes s

abbrev pub AfterLoss : Option Server → Type 0
AfterLoss none = Unit
AfterLoss (some s) = Wakes s

abbrev pub is_there {ℓ} : {A : Type ℓ} → Option A → Bool
is_there none = false
is_there (some a) = true

abbrev pub NoneLost : Dict ℤ Task → Type 0
NoneLost tasks = (id : ℤ) (t : Task) → lookup id tasks ≡ some t → t.lost ≡ false

insert-NoneLost :
    (k : ℤ) (new : Task) (tasks : Dict ℤ Task)
    → new.lost ≡ false
    → NoneLost tasks
    → NoneLost (insert k new tasks)
insert-NoneLost k new tasks fresh all id t e = elim (Bool-cases (int_beq k id)) [
  | inl hit ↦ ground (arith, lookup-insert k id new tasks, fresh, hit, e)
  | inr miss ↦ all id t (ground (arith, lookup-insert k id new tasks, miss, e))
]

delete-NoneLost : (k : ℤ) (tasks : Dict ℤ Task) → NoneLost tasks → NoneLost (delete k tasks)
delete-NoneLost k tasks all id t e = elim (Bool-cases (int_beq k id)) [
  | inl hit ↦ absurd (ground (arith, lookup-delete k id tasks, hit, e))
  | inr miss ↦ all id t (ground (arith, lookup-delete k id tasks, miss, e))
]

pub on_request-Wakes :
    (fl : Floats) (r : Request) (s : Server) → Wakes s → Wakes (on_request fl r s)
unfolding on_request
on_request-Wakes fl r s w = record {
  none_lost = insert-NoneLost r.id _ s.tasks refl w.none_lost;
  awake = inr (inr (inl (omega arith)));
}

pub on_join-Wakes : (id : ℤ) (s : Server) → Wakes s → Wakes (on_join id s)
unfolding on_join
on_join-Wakes id s w = record { none_lost = w.none_lost; awake = inr (inr (inl (omega arith))) }

finish-Wakes :
    (r : Result) (mn : Miner) (t : Task) (s : Server)
    → t.lost ≡ false
    → Wakes s
    → Wakes (finish r mn t s).0
unfolding finish
finish-Wakes r mn t s fresh w = elim (Bool-cases (int_beq t.miners (pos 0))) [
  | inl last ↦ rw last (record {
    none_lost = delete-NoneLost mn.client_id s.tasks w.none_lost;
    awake = inr (inr (inl (omega arith)));
  })
  | inr more ↦ rw more (record {
    none_lost = insert-NoneLost mn.client_id t s.tasks fresh w.none_lost;
    awake = inr (inr (inl (omega arith)));
  })
]

take_result-After : (r : Result) (mn : Miner) (s : Server) → Wakes s → After (take_result r mn s)
unfolding take_result
take_result-After r mn s w = elim (Option-cases (lookup mn.client_id s.tasks)) [
  | inl e ↦ rw (e, take_result) tt
  | inr (t, e) ↦
      rw (e, take_result)
        (finish-Wakes r mn (count_result r.found t) s (w.none_lost mn.client_id t e) w)
]

pub on_result-After : (r : Result) (s : Server) → Wakes s → After (on_result r s)
unfolding on_result
on_result-After r s w = elim (Option-cases (lookup r.id s.miners)) [
  | inl e ↦ rw (e, on_result) w
  | inr (mn, e) ↦ elim (Bool-cases (int_beq mn.client_id (pos 0))) [
    | inl idle ↦ rw (e, on_result) (rw idle w)
    | inr works ↦ rw (e, on_result) (rw works (take_result-After r mn s w))
  ]
]

insert_self :
    (k : ℤ) (new : Miner) (miners : Dict ℤ Miner) → lookup k (insert k new miners) ≡ some new
insert_self k new miners =
    let self : int_beq k k ≡ true = (int_beq_iff k k).1 refl in
    rw (lookup-insert k k new miners, self) refl

-- A piece goes to a miner.
dispatch-After :
    (mid : ℤ) (free : List ℤ) (r : Request) (pending : List Request) (s : Server)
    → r.id ≢ pos 0
    → NoneLost s.tasks
    → After (dispatch true mid free r pending s)
unfolding dispatch
dispatch-After mid free r pending s real all = elim (Option-cases (lookup r.id s.tasks)) [
  | inl e ↦ rw (e, dispatch) tt
  | inr (t, e) ↦
      rw (e, dispatch)
        (rw (all r.id t e) (record {
          none_lost = all;
          awake = inr (
              inr (
                inr (record {
                  id = mid;
                  miner = _;
                  held = insert_self mid _ s.miners;
                  works = real;
                })));
        }))
]

pub on_trigger-After :
    (free : List ℤ) (pending : List Request) (s : Server)
    → s.free_miners ≡ free
    → s.pending_requests ≡ pending
    → All (λ r. r.id ≢ pos 0) pending
    → NoneLost s.tasks
    → After (on_trigger true free pending s)
unfolding on_trigger
on_trigger-After [] pending s e e' named all = record { none_lost = all; awake = inl e }
on_trigger-After (mid ∷ free) [] s e e' named all = record { none_lost = all; awake = inr (inl e') }
on_trigger-After (mid ∷ free) (r ∷ pending) s e e' (real, named) all =
    dispatch-After mid free r pending s real all

-- The loss of a miner without a piece.
Busy-delete :
    (e : ℤ) (mn : Miner) (miners : Dict ℤ Miner)
    → lookup e miners ≡ some mn
    → mn.client_id ≡ pos 0
    → Busy miners
    → Busy (delete e miners)
Busy-delete e mn miners there idle b = elim (Bool-cases (int_beq e b.id)) [
  | inl hit ↦
      let same : e ≡ b.id = (int_beq_iff e b.id).0 hit in
      let held : lookup e miners ≡ some b.miner = rw same b.held in
      absurd (b.works (ground (arith, held, there, idle)))
  | inr miss ↦ record {
    id = b.id;
    miner = b.miner;
    held = rw (lookup-delete e b.id miners, miss) b.held;
    works = b.works;
  }
]

drop_free-Wakes :
    (e : ℤ) (mn : Miner) (s : Server)
    → lookup e s.miners ≡ some mn
    → mn.client_id ≡ pos 0
    → Wakes s
    → Wakes (drop_free e s)
unfolding remove_dead
drop_free-Wakes e mn s there idle w = record {
  none_lost = w.none_lost;
  awake = elim w.awake [
    | inl nobody ↦ inl (rw nobody refl)
    | inr (inl nothing) ↦ inr (inl nothing)
    | inr (inr (inl waits)) ↦ inr (inr (inl waits))
    | inr (inr (inr busy)) ↦ inr (inr (inr (Busy-delete e mn s.miners there idle busy)))
  ];
}

lose_miner-After :
    (e : ℤ) (mn : Miner) (s : Server)
    → lookup e s.miners ≡ some mn
    → Wakes s
    → AfterLoss (lose_miner e mn s)
unfolding lose_miner
lose_miner-After e mn s there w = elim (Bool-cases (int_beq mn.client_id (pos 0))) [
  | inl idle ↦ rw idle (drop_free-Wakes e mn s there ((int_beq_iff mn.client_id (pos 0)).0 idle) w)
  | inr works ↦ elim (Option-cases (lookup mn.client_id s.tasks)) [
    | inl none_there ↦ rw (works, none_there, lose_miner) tt
    | inr (t, found) ↦
        rw (works, found, lose_miner)
          (rw (w.none_lost mn.client_id t found)
            (record { none_lost = w.none_lost; awake = inr (inr (inl (omega arith))) }))
  ]
]

lose_client-Wakes :
    (e : ℤ) (s : Server) → is_there (lookup e s.tasks) ≡ false → Wakes s → Wakes (lose_client e s)
unfolding lose_client
lose_client-Wakes e s no_task w = elim (Option-cases (lookup e s.tasks)) [
  | inl gone ↦ rw (gone, lose_client) w
  | inr (t, found) ↦ absurd (let there : true ≡ false = rw found at no_task in cc there)
]

pub on_error-AfterLoss :
    (e : ℤ) (s : Server)
    → (not (is_there (lookup e s.miners)) && is_there (lookup e s.tasks)) ≡ false
    → Wakes s
    → AfterLoss (on_error e s)
unfolding on_error
on_error-AfterLoss e s well w = elim (Option-cases (lookup e s.miners)) [
  | inl gone ↦ rw (gone, on_error) (lose_client-Wakes e s (rw gone at well) w)
  | inr (mn, there) ↦ rw (there, on_error) (lose_miner-After e mn s there w)
]
