-- ===== src/Bitcoin/Server/Schedule/Stalls.antt =====
-- Runs of project-2/src/example.com/bitcoin/server/server.go on which no client is lost.
use dsystem_homework.Base.{
  ℕ, zero, suc, ◌<◌, ◌≡◌, ◌⊎◌, refl, inl, inr, ℤ, int_eq, true, false, ◌&&◌, not, List, [], ◌∷◌,
  Option, some, none, lookup, Option-cases,
}
use dsystem_homework.Bitcoin.Message.{MsgType, Message}
use dsystem_homework.Bitcoin.Server.{
  Request, Result, Server, start_server, Input, message, connection_lost, receive, receive_message,
}
use dsystem_homework.Bitcoin.Server.Schedule.{Floats, Outcome}
use dsystem_homework.Bitcoin.Server.Schedule.Rounds.{
  from_requests, from_trigger, from_joins, from_results, from_errors, schedule, Event, reads,
  schedules, step, run, take_request, take_trigger, take_join, take_results, take_errors, silent,
  state_of,
}
use dsystem_homework.Bitcoin.Server.Schedule.Invariant.{Inv}
use dsystem_homework.Bitcoin.Server.Schedule.Safety.{AfterStep, AskOnce, step-Kept, start-Inv}
use dsystem_homework.Bitcoin.Server.Schedule.Losses.{Kept}
use dsystem_homework.Bitcoin.Server.Schedule.Wakes.{
  Busy, Wakes, After, AfterLoss, on_request-Wakes, on_join-Wakes, on_result-After, on_trigger-After,
  on_error-AfterLoss, is_there,
}

-- The connection whose loss `schedule` takes next is not that of a client with a task.
abbrev pub LosesMiner : List ℤ → Server → Type 0
LosesMiner [] s = Unit
LosesMiner (e ∷ rest) s =
    (not (is_there (lookup e s.miners)) && is_there (lookup e s.tasks)) ≡ false

abbrev pub GoesWell : Event → Server → Type 0
GoesWell (reads input) s = Unit
GoesWell (schedules from_requests) s = Unit
GoesWell (schedules (from_trigger written)) s = written ≡ true
GoesWell (schedules from_joins) s = Unit
GoesWell (schedules from_results) s = Unit
GoesWell (schedules from_errors) s = LosesMiner s.errors s

-- Along a run, every write succeeds and no client with a task is lost.
abbrev pub GoWell : Floats → List Event → Server → Type 0
GoWell fl [] s = Unit
GoWell fl (event ∷ events) s =
    let P = GoWell fl events in GoesWell event s × AfterStep P (step fl event s)

-- A state in which only channels other than `trigger` have changed.
same :
    {s : Server} (joins : List ℤ) (requests : List Request) (results : List Result)
    (errors : List ℤ)
    → Wakes s
    → Wakes (record s { joins = joins; requests = requests; results = results; errors = errors })
same joins requests results errors w = record { none_lost = w.none_lost; awake = w.awake }

silent-After : (o : Option Server) → AfterLoss o → After (silent o)
unfolding silent
silent-After none after = tt
silent-After (some s) after = after

take_errors-After :
    (es : List ℤ) (s : Server) → LosesMiner es s → Wakes s → After (take_errors es s)
unfolding take_errors
take_errors-After [] s well w = w
take_errors-After (e ∷ rest) s well w =
    silent-After _ (on_error-AfterLoss e _ well (same s.joins s.requests s.results rest w))

take_request-After :
    (fl : Floats) (rs : List Request) (s : Server) → Wakes s → After (take_request fl rs s)
unfolding take_request
take_request-After fl [] s w = w
take_request-After fl (r ∷ rest) s w =
    on_request-Wakes fl r _ (same s.joins rest s.results s.errors w)

take_trigger-After : (n : ℕ) (s : Server) → Inv s → Wakes s → After (take_trigger true n s)
unfolding take_trigger
take_trigger-After zero s inv w = w
take_trigger-After (suc n) s inv w =
    on_trigger-After s.free_miners s.pending_requests _ refl refl inv.named w.none_lost

take_join-After : (ids : List ℤ) (s : Server) → Wakes s → After (take_join ids s)
unfolding take_join
take_join-After [] s w = w
take_join-After (id ∷ rest) s w = on_join-Wakes id _ (same rest s.requests s.results s.errors w)

take_results-After : (rs : List Result) (s : Server) → Wakes s → After (take_results rs s)
unfolding take_results
take_results-After [] s w = w
take_results-After (r ∷ rest) s w = on_result-After r _ (same s.joins s.requests rest s.errors w)

receive_message-Wakes :
    (t : MsgType) (id : ℤ) (m : Message) (s : Server) → Wakes s → Wakes (receive_message t id m s)
unfolding receive_message
receive_message-Wakes MsgType.join id m s w = same _ s.requests s.results s.errors w
receive_message-Wakes MsgType.request id m s w = same s.joins _ s.results s.errors w
receive_message-Wakes MsgType.result id m s w = same s.joins s.requests _ s.errors w

receive-Wakes : (input : Input) (s : Server) → Wakes s → Wakes (receive input s)
unfolding receive
receive-Wakes (message id m) s w = receive_message-Wakes m.type id m s w
receive-Wakes (connection_lost id) s w = same s.joins s.requests s.results _ w

state_of-AfterLoss : (o : Outcome) → After o → AfterLoss (state_of o)
unfolding state_of
state_of-AfterLoss none after = tt
state_of-AfterLoss (some (s, written)) after = after

step-AfterLoss :
    (fl : Floats) (event : Event) (s : Server)
    → GoesWell event s
    → Inv s
    → Wakes s
    → AfterLoss (step fl event s)
unfolding step schedule
step-AfterLoss fl (reads input) s well inv w = receive-Wakes input s w
step-AfterLoss fl (schedules from_requests) s well inv w =
    state_of-AfterLoss _ (take_request-After fl s.requests s w)
step-AfterLoss fl (schedules (from_trigger true)) s well inv w =
    state_of-AfterLoss _ (take_trigger-After s.triggers s inv w)
step-AfterLoss fl (schedules (from_trigger false)) s well inv w = cc
step-AfterLoss fl (schedules from_joins) s well inv w =
    state_of-AfterLoss _ (take_join-After s.joins s w)
step-AfterLoss fl (schedules from_results) s well inv w =
    state_of-AfterLoss _ (take_results-After s.results s w)
step-AfterLoss fl (schedules from_errors) s well inv w =
    state_of-AfterLoss _ (take_errors-After s.errors s well w)

run-Wakes :
    (fl : Floats) (events : List Event) (s : Server)
    → AskOnce fl events s
    → GoWell fl events s
    → Inv s
    → Wakes s
    → (t : Server) × (run fl events s ≡ some t) × Wakes t
unfolding run
run-Wakes fl [] s once well inv w = (s, refl, w)
run-Wakes fl (event ∷ events) s (now, later) (well, wells) inv w =
    elim (Option-cases (step fl event s)) [
      | inl panic ↦ let bad : Kept none = rw panic at (step-Kept fl event s now inv) in absurd bad
      | inr (s', e) ↦
          rw (e, run)
            (run-Wakes fl events s' (rw e at later) (rw e at wells)
              (rw e at (step-Kept fl event s now inv))
              (rw e at (step-AfterLoss fl event s well inv w)))
    ]

-- On every run of a new server's two goroutines on which no client has a request taken while it has a
-- task in the table or under the number 0, every write to a miner succeeds, and no client with a task
-- is lost, whatever else is read, joins, answers or which miners are lost: no round panics, and at the
-- end a free miner and a pending piece never wait together unless a trigger waits for `schedule` or
-- some miner has a piece.
pub never_stalls :
    (fl : Floats) (events : List Event)
    → AskOnce fl events start_server
    → GoWell fl events start_server
    → (s : Server) × (run fl events start_server ≡ some s)
      × ((s.free_miners ≡ []) ⊎ (s.pending_requests ≡ []) ⊎ (0 < s.triggers) ⊎ Busy s.miners)
unfolding start_server lookup
never_stalls fl events once well =
    let (s, e, w) =
      run-Wakes fl events start_server once well start-Inv
        (record { none_lost = λ id t e. cc e; awake = inl refl }) in
    (s, e, w.awake)
