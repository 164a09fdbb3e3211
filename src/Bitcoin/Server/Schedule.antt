-- ===== src/Bitcoin/Server/Schedule.antt =====
-- project-2/src/example.com/bitcoin/server/server.go: `schedule`, which owns the state of the server,
-- so that the pointers in its maps are not shared.
pub mod Rounds
pub mod Loads
pub mod Invariant
pub mod Results
pub mod Losses
pub mod Safety
pub mod Wakes
pub mod Stalls
pub mod Pieces
use dsystem_homework.Base.{
  ℕ, zero, suc, ◌+◌, ◌*◌, ◌%◌, ◌^◌, ℤ, pos, negsuc, int_eq, int_beq, ltb, Bool, true, false, not,
  ◌&&◌, List, [], ◌∷◌, ◌++◌, Option, none, some, length, if◌then◌else◌, Dict, lookup, insert,
  delete,
}
use dsystem_homework.Bitcoin.Message.{Message, new_request, new_result}
use dsystem_homework.Bitcoin.Best.{better, Found}
use dsystem_homework.Bitcoin.Server.{Task, Request, Result, Miner, Server, Input, receive}

unfoldable pub min : ℕ → ℕ → ℕ
min a b = if ltb a b then a else b

-- The loop that cuts a request into pieces, with `left` rounds to go, the next one number `i`.
unfoldable pub pieces : Request → ℕ → ℕ → ℕ → List Request
pieces r step zero i = []
pieces r step (suc left) i =
    record {
      id = r.id;
      lower = i * step % 2 ^ 64;
      upper = min r.upper (suc i * step % 2 ^ 64);
      data_text = r.data_text;
    }
    ∷ pieces r step left (suc i)

-- `task.miners--`
unfoldable pub one_less : ℤ → ℤ
one_less (pos zero) = negsuc 0
one_less (pos (suc n)) = pos n
one_less (negsuc n) = negsuc (suc n)

-- What a message to a connection is written as.
abbrev pub Written : Type 0
Written = ℤ × Message

-- A round of `schedule`: none is the panic of a nil dereference.
abbrev pub Outcome : Type 0
Outcome = Option (Server × List Written)

-- The floating-point functions of package math that the code calls: `floor_log10 n` for
-- `int(math.Floor(math.Log10(float64(n))))`, `ceil_div n d` for
-- `uint64(math.Ceil(float64(n) / float64(d)))`.
pub record Floats : Type 0 where
  pub floor_log10 : ℕ → ℕ
  pub ceil_div : ℕ → ℕ → ℕ

-- `schedule`'s number of pieces.
unfoldable pub stride_of : Floats → ℕ → ℕ → ℕ
stride_of fl upper free =
    let stride = if ltb 10000 upper then fl.floor_log10 upper else 1 in
    if ltb 0 free && ltb stride free then free else stride

unfoldable pub on_request : Floats → Request → Server → Server
on_request fl r s =
    let stride = stride_of fl r.upper (length s.free_miners) in
    record s {
      tasks =
          insert r.id
            (record { lost = false; best = record { hash = 0; nonce = 0 }; miners = pos stride })
            s.tasks;
      pending_requests = s.pending_requests ++ pieces r (fl.ceil_div r.upper stride) stride 0;
      triggers = suc s.triggers;
    }

abbrev pub assign : ℤ → List ℤ → Request → List Request → Server → Server
assign mid free r pending s = record s {
  free_miners = free;
  pending_requests = pending;
  miners =
      insert mid
        (record { client_id = r.id; data_text = r.data_text; upper = r.upper; lower = r.lower })
        s.miners;
}

-- A free miner and a pending piece are there; `written` says that `Write` returned no error.
unfoldable pub dispatch : Bool → ℤ → List ℤ → Request → List Request → Server → Outcome
dispatch written mid free r pending s = elim (lookup r.id s.tasks) [
  | none ↦ none
  | some t ↦
      if t.lost
      then some (record s { pending_requests = pending }, [])
      else if written
      then some (assign mid free r pending s, (mid, new_request r.data_text r.lower r.upper) ∷ [])
      else some (record s { errors = s.errors ++ mid ∷ [] }, [])
]

unfoldable pub on_trigger : Bool → List ℤ → List Request → Server → Outcome
unfolding dispatch
on_trigger written [] pending s = some (s, [])
on_trigger written (mid ∷ free) [] s = some (s, [])
on_trigger written (mid ∷ free) (r ∷ pending) s = dispatch written mid free r pending s

unfoldable pub on_join : ℤ → Server → Server
on_join id s = record s {
  free_miners = id ∷ s.free_miners;
  miners = insert id (record { client_id = pos 0; data_text = ""; upper = 0; lower = 0 }) s.miners;
  triggers = suc s.triggers;
}

-- The end of a task.
abbrev pub answer : ℤ → Task → List Written
answer client_id t = if t.lost then [] else (client_id, new_result t.best.hash t.best.nonce) ∷ []

abbrev pub count_result : Found → Task → Task
count_result found t = record t { miners = one_less t.miners; best = better t.best found }

abbrev pub free_miner : ℤ → Miner → Server → Server
free_miner id mn s = record s {
  miners = insert id (record mn { client_id = pos 0 }) s.miners;
  free_miners = s.free_miners ++ id ∷ [];
  triggers = suc s.triggers;
}

finish : Result → Miner → Task → Server → Server × List Written
finish r mn t s =
    if int_beq t.miners (pos 0)
    then (
      free_miner r.id mn (record s { tasks = delete mn.client_id s.tasks }),
      answer mn.client_id t,
    )
    else (free_miner r.id mn (record s { tasks = insert mn.client_id t s.tasks }), [])

take_result : Result → Miner → Server → Outcome
unfolding finish
take_result r mn s = elim (lookup mn.client_id s.tasks) [
  | none ↦ none
  | some t ↦ some (finish r mn (count_result r.found t) s)
]

unfoldable pub on_result : Result → Server → Outcome
unfolding take_result
on_result r s = elim (lookup r.id s.miners) [
  | none ↦ some (s, [])
  | some mn ↦ if int_beq mn.client_id (pos 0) then some (s, []) else take_result r mn s
]

has_miner : ℤ → Dict ℤ Miner → Bool
has_miner id miners = elim (lookup id miners) [ none ↦ false | some mn ↦ true ]

-- The loop over `freeMiners`: `Remove` unlinks the element, so `Next` of it is nil and the loop
-- ends after the first one that it removes.
unfoldable pub remove_dead : Dict ℤ Miner → List ℤ → List ℤ
unfolding has_miner
remove_dead miners [] = []
remove_dead miners (id ∷ ids) = if has_miner id miners then id ∷ remove_dead miners ids else ids

abbrev pub again : Miner → Request
again mn = record {
  id = mn.client_id;
  lower = mn.lower;
  upper = mn.upper;
  data_text = mn.data_text;
}

abbrev pub drop_free : ℤ → Server → Server
drop_free e s =
    let miners = delete e s.miners in
    record s { miners = miners; free_miners = remove_dead miners s.free_miners }

abbrev pub drop_busy : ℤ → Miner → Server → Server
drop_busy e mn s = record s {
  miners = delete e s.miners;
  pending_requests = again mn ∷ s.pending_requests;
  triggers = suc s.triggers;
}

lose_miner : ℤ → Miner → Server → Option Server
lose_miner e mn s =
    if int_beq mn.client_id (pos 0)
    then some (drop_free e s)
    else elim (lookup mn.client_id s.tasks) [
      | none ↦ none
      | some t ↦ if t.lost then some (drop_free e s) else some (drop_busy e mn s)
    ]

lose_client : ℤ → Server → Server
lose_client e s = elim (lookup e s.tasks) [
  | none ↦ s
  | some t ↦ record s { tasks = insert e (record t { lost = true }) s.tasks }
]

unfoldable pub on_error : ℤ → Server → Option Server
unfolding lose_miner lose_client
on_error e s = elim (lookup e s.miners) [
  | some mn ↦ lose_miner e mn s
  | none ↦ some (lose_client e s)
]
