-- ===== src/Bitcoin/Server/Schedule/Rounds.antt =====
-- project-2/src/example.com/bitcoin/server/server.go: the rounds of `schedule`, and runs of the two
-- goroutines of the server.
use dsystem_homework.Base.{ℕ, zero, suc, ℤ, Bool, List, [], ◌∷◌, Option, none, some}
use dsystem_homework.Bitcoin.Server.{Request, Result, Server, Input, receive}
use dsystem_homework.Bitcoin.Server.Schedule.{
  Outcome, Floats, on_request, on_trigger, on_join, on_result, on_error,
}

-- The case that the `select` of `schedule` takes; on a trigger, whether `Write` returns no error.
pub data Case : Type 0 where
  from_requests : Case
  from_trigger : Bool → Case
  from_joins from_results from_errors : Case

unfoldable pub take_request : Floats → List Request → Server → Outcome
take_request fl [] s = some (s, [])
take_request fl (r ∷ rest) s = some (on_request fl r (record s { requests = rest }), [])

unfoldable pub take_trigger : Bool → ℕ → Server → Outcome
take_trigger written zero s = some (s, [])
take_trigger written (suc n) s =
    on_trigger written s.free_miners s.pending_requests (record s { triggers = n })

unfoldable pub take_join : List ℤ → Server → Outcome
take_join [] s = some (s, [])
take_join (id ∷ rest) s = some (on_join id (record s { joins = rest }), [])

unfoldable pub take_results : List Result → Server → Outcome
take_results [] s = some (s, [])
take_results (r ∷ rest) s = on_result r (record s { results = rest })

unfoldable pub silent : Option Server → Outcome
silent none = none
silent (some s) = some (s, [])

unfoldable pub take_errors : List ℤ → Server → Outcome
unfolding silent
take_errors [] s = some (s, [])
take_errors (e ∷ rest) s = silent (on_error e (record s { errors = rest }))

-- A round of `schedule`; a case whose channel is empty is not taken, and the round waits.
unfoldable pub schedule : Floats → Case → Server → Outcome
unfolding take_request take_trigger take_join take_results take_errors
schedule fl from_requests s = take_request fl s.requests s
schedule fl (from_trigger written) s = take_trigger written s.triggers s
schedule fl from_joins s = take_join s.joins s
schedule fl from_results s = take_results s.results s
schedule fl from_errors s = take_errors s.errors s

-- What can happen at the server: a round of either goroutine.
pub data Event : Type 0 where
  reads : Input → Event
  schedules : Case → Event

unfoldable pub state_of : Outcome → Option Server
state_of none = none
state_of (some (s, written)) = some s

unfoldable pub step : Floats → Event → Server → Option Server
unfolding state_of
step fl (reads input) s = some (receive input s)
step fl (schedules c) s = state_of (schedule fl c s)

unfoldable pub run : Floats → List Event → Server → Option Server
run fl [] s = some s
run fl (event ∷ events) s =
    let next = step fl event s in elim next [ none ↦ none | some s' ↦ run fl events s' ]
