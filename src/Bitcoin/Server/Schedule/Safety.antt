-- ===== src/Bitcoin/Server/Schedule/Safety.antt =====
-- Runs of project-2/src/example.com/bitcoin/server/server.go and the nil dereferences of `schedule`.
use dsystem_homework.Base.{
  ℕ, zero, suc, ◌≡◌, ◌≢◌, refl, inl, inr, ℤ, pos, int_eq, Bool, List, [], ◌∷◌, Option, some, none,
  lookup, Option-cases,
}
use dsystem_homework.Bitcoin.Message.{MsgType, Message}
use dsystem_homework.Bitcoin.Server.{
  Request, Result, Server, start_server, Input, message, connection_lost, receive, receive_message,
}
use dsystem_homework.Bitcoin.Server.Schedule.{Floats, Outcome}
use dsystem_homework.Bitcoin.Server.Schedule.Rounds.{
  from_requests, from_trigger, from_joins, from_results, from_errors, schedule, Event, reads,
  schedules, step, run, take_request, take_trigger, take_join, take_results, take_errors, silent,
  state_of,
}
use dsystem_homework.Bitcoin.Server.Schedule.Loads.{pend, busy}
use dsystem_homework.Bitcoin.Server.Schedule.Invariant.{
  Counts, load, Inv, Fine, on_request-Inv, on_join-Inv, on_trigger-Fine,
}
use dsystem_homework.Bitcoin.Server.Schedule.Results.{on_result-Fine}
use dsystem_homework.Bitcoin.Server.Schedule.Losses.{Kept, on_error-Kept}

-- The request that `schedule` takes next comes from a client that has no task in the table.
abbrev pub IsNew : List Request → Server → Type 0
IsNew [] s = Unit
IsNew (r ∷ rest) s = (r.id ≢ pos 0) × (lookup r.id s.tasks ≡ none)

abbrev pub AsksOnce : Event → Server → Type 0
AsksOnce (reads input) s = Unit
AsksOnce (schedules from_requests) s = IsNew s.requests s
AsksOnce (schedules (from_trigger written)) s = Unit
AsksOnce (schedules from_joins) s = Unit
AsksOnce (schedules from_results) s = Unit
AsksOnce (schedules from_errors) s = Unit

take_request-Fine :
    (fl : Floats) (rs : List Request) (s : Server)
    → IsNew rs s
    → Inv s
    → Fine (take_request fl rs s)
unfolding take_request
take_request-Fine fl [] s new inv = inv
take_request-Fine fl (r ∷ rest) s (real, new) inv =
    on_request-Inv fl r _ real new (record { counted = inv.counted; named = inv.named })

take_trigger-Fine : (written : Bool) (n : ℕ) (s : Server) → Inv s → Fine (take_trigger written n s)
unfolding take_trigger
take_trigger-Fine written zero s inv = inv
take_trigger-Fine written (suc n) s inv =
    on_trigger-Fine written s.free_miners s.pending_requests _ refl
      (record { counted = inv.counted; named = inv.named })

take_join-Fine : (ids : List ℤ) (s : Server) → Inv s → Fine (take_join ids s)
unfolding take_join
take_join-Fine [] s inv = inv
take_join-Fine (id ∷ rest) s inv =
    on_join-Inv id _ (record { counted = inv.counted; named = inv.named })

take_results-Fine : (rs : List Result) (s : Server) → Inv s → Fine (take_results rs s)
unfolding take_results
take_results-Fine [] s inv = inv
take_results-Fine (r ∷ rest) s inv =
    on_result-Fine r _ (record { counted = inv.counted; named = inv.named })

silent-Fine : (o : Option Server) → Kept o → Fine (silent o)
unfolding silent
silent-Fine none kept = kept
silent-Fine (some s) kept = kept

take_errors-Fine : (es : List ℤ) (s : Server) → Inv s → Fine (take_errors es s)
unfolding take_errors
take_errors-Fine [] s inv = inv
take_errors-Fine (e ∷ rest) s inv =
    silent-Fine _ (on_error-Kept e _ (record { counted = inv.counted; named = inv.named }))

state_of-Kept : (o : Outcome) → Fine o → Kept (state_of o)
unfolding state_of
state_of-Kept none fine = fine
state_of-Kept (some (s, written)) fine = fine

receive_message-Inv :
    (t : MsgType) (id : ℤ) (m : Message) (s : Server) → Inv s → Inv (receive_message t id m s)
unfolding receive_message
receive_message-Inv MsgType.join id m s inv = record { counted = inv.counted; named = inv.named }
receive_message-Inv MsgType.request id m s inv = record { counted = inv.counted; named = inv.named }
receive_message-Inv MsgType.result id m s inv = record { counted = inv.counted; named = inv.named }

receive-Inv : (input : Input) (s : Server) → Inv s → Inv (receive input s)
unfolding receive
receive-Inv (message id m) s inv = receive_message-Inv m.type id m s inv
receive-Inv (connection_lost id) s inv = record { counted = inv.counted; named = inv.named }

pub step-Kept :
    (fl : Floats) (event : Event) (s : Server) → AsksOnce event s → Inv s → Kept (step fl event s)
unfolding step schedule
step-Kept fl (reads input) s once inv = receive-Inv input s inv
step-Kept fl (schedules from_requests) s once inv =
    state_of-Kept _ (take_request-Fine fl s.requests s once inv)
step-Kept fl (schedules (from_trigger written)) s once inv =
    state_of-Kept _ (take_trigger-Fine written s.triggers s inv)
step-Kept fl (schedules from_joins) s once inv = state_of-Kept _ (take_join-Fine s.joins s inv)
step-Kept fl (schedules from_results) s once inv =
    state_of-Kept _ (take_results-Fine s.results s inv)
step-Kept fl (schedules from_errors) s once inv = state_of-Kept _ (take_errors-Fine s.errors s inv)

-- Along a run, no client has a second request taken while its task is in the table.
abbrev pub AfterStep : (Server → Type 0) → Option Server → Type 0
AfterStep P none = Unit
AfterStep P (some s) = P s

abbrev pub AskOnce : Floats → List Event → Server → Type 0
AskOnce fl [] s = Unit
AskOnce fl (event ∷ events) s =
    let P = AskOnce fl events in AsksOnce event s × AfterStep P (step fl event s)

run-Kept :
    (fl : Floats) (events : List Event) (s : Server)
    → AskOnce fl events s
    → Inv s
    → Kept (run fl events s)
unfolding run
run-Kept fl [] s once inv = inv
run-Kept fl (event ∷ events) s (now, later) inv = elim (Option-cases (step fl event s)) [
  | inl panic ↦ let bad : Kept none = rw panic at (step-Kept fl event s now inv) in absurd bad
  | inr (s', e) ↦
      rw (e, run) (run-Kept fl events s' (rw e at later) (rw e at (step-Kept fl event s now inv)))
]

pub start-Inv : Inv start_server
unfolding start_server pend busy lookup
start-Inv = record { counted = λ id h. refl; named = tt }

Kept-some : (o : Option Server) → Kept o → (s : Server) × (o ≡ some s) × Inv s
Kept-some none kept = absurd kept
Kept-some (some s) kept = (s, refl, kept)

-- On every run of a new server's two goroutines on which no client has a request taken while it
-- has a task in the table or under the number 0, whatever else is read, lost, joins or answers, and
-- whether writes fail or not: no round panics, and at the end a number other than 0 with pieces that
-- are pending or with a miner has a task, which counts at least as many.
pub never_panics :
    (fl : Floats) (events : List Event) (id : ℤ)
    → AskOnce fl events start_server
    → id ≢ pos 0
    → (s : Server) × (run fl events start_server ≡ some s) × Counts (load id s) (lookup id s.tasks)
never_panics fl events id once real =
    let (s, e, inv) = Kept-some _ (run-Kept fl events start_server once start-Inv) in
    (s, e, inv.counted id real)
