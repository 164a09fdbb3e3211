-- ===== src/MapReduce/Registration.antt =====
-- project-3/src/mapreduce/mapreduce.go: the registration server, on which workers register and which
-- `CleanupRegistration` shuts down, and `call` of common.go. Each connection has its own goroutine,
-- which serves one RPC.
use dsystem_homework.Base.{
  ℕ, zero, suc, Bool, true, false, List, [], ◌∷◌, ◌++◌, Option, none, if◌then◌else◌, ◌&&◌,
}
use dsystem_homework.MapReduce.Text.{Text}

-- Where the loop of `StartRegistrationServer` stands: at its test, in `Accept`, or behind the loop.
pub data Place : Type 0 where
  at_test at_accept at_end : Place

-- `registered` has the names that were sent on `registerChannel`.
pub record Registration : Type 0 where
  pub alive : Bool
  pub listening : Bool
  pub place : Place
  pub waiting : ℕ  -- connections whose RPC is not served yet
  pub registered : List Text

-- `StartRegistrationServer` with a `Listen` that succeeds.
unfoldable pub start_registration : Registration
start_registration = record {
  alive = true;
  listening = true;
  place = at_test;
  waiting = 0;
  registered = [];
}

-- A step of the loop; `Accept` fails when the listener is closed.
loop_at : Place → Bool → Registration → Registration
loop_at at_test ok r =
    if r.alive then record r { place = at_accept } else record r { place = at_end }
loop_at at_accept ok r =
    if ok && r.listening
    then record r { place = at_test; waiting = suc r.waiting }
    else record r { place = at_end }
loop_at at_end ok r = r

-- The RPCs `Register` and `Shutdown`, on a connection that waits.
register : Text → ℕ → Registration → Registration
register worker zero r = r
register worker (suc waiting) r = record r {
  waiting = waiting;
  registered = r.registered ++ worker ∷ [];
}

shutdown : ℕ → Registration → Registration
shutdown zero r = r
shutdown (suc waiting) r = record r { alive = false; listening = false; waiting = waiting }

pub data Event : Type 0 where
  loops : Bool → Event
  registers : Text → Event
  shuts_down : Event

unfoldable pub step : Event → Registration → Registration
unfolding loop_at register shutdown
step (loops ok) r = loop_at r.place ok r
step (registers worker) r = register worker r.waiting r
step shuts_down r = shutdown r.waiting r

unfoldable pub run : List Event → Registration → Registration
run [] r = r
run (e ∷ events) r = run events (step e r)

-- `call`: whether the server could be dialled and the RPC gave no error, with its reply.
unfoldable pub call : {A : Type 0} → Bool → Option A → Option A
call false reply = none
call true reply = reply
