-- ===== src/Bitcoin/Tests.antt =====
-- Runs of the mining server and of a miner.
use Prim.Native.String.{String}
use dsystem_homework.Base.{
  ◌<◌, ◌⊎◌, ℕ, suc, ◌+◌, ◌*◌, ◌/◌, ◌≤◌, ◌≡◌, refl, pos, int_eq, true, false, List, [], ◌∷◌, some,
  In, lookup, insert, delete, arith,
}
use dsystem_homework.Bitcoin.Message.{Message, new_join, new_request, new_result}
use dsystem_homework.Bitcoin.Best.{Found, nothing, better}
use dsystem_homework.Bitcoin.Server.{Request, Server, start_server, message, receive}
use dsystem_homework.Bitcoin.Server.Schedule.{
  Floats, pieces, min, stride_of, one_less, on_request, on_trigger, dispatch, on_join, on_result,
}
use dsystem_homework.Bitcoin.Server.Schedule.Rounds.{
  from_requests, from_trigger, from_joins, from_results, schedule, Event, reads, schedules, step,
  run, take_trigger,
}
use dsystem_homework.Bitcoin.Server.Schedule.Invariant.{Counts, load}
use dsystem_homework.Bitcoin.Server.Schedule.Safety.{AskOnce, never_panics}
use dsystem_homework.Bitcoin.Server.Schedule.Wakes.{Busy}
use dsystem_homework.Bitcoin.Server.Schedule.Stalls.{GoWell, never_stalls}
use dsystem_homework.Bitcoin.Server.Schedule.Pieces.{request_covered}
use dsystem_homework.Bitcoin.Miner.{span, mine}
use dsystem_homework.Bitcoin.Miner.Search.{mine_least}

-- Exact on the numbers that occur here.
abbrev floats : Floats
floats = record { floor_log10 = λ n. 4; ceil_div = λ n d. n }

-- Miner 73 joins, client 74 asks and gets its piece to the miner, which answers.
abbrev one_job : List Event
one_job =
    reads (message (pos 73) new_join)
    ∷ schedules from_joins
    ∷ schedules (from_trigger true)
    ∷ reads (message (pos 74) (new_request "msg" 0 9))
    ∷ schedules from_requests
    ∷ schedules (from_trigger true)
    ∷ reads (message (pos 73) (new_result 5 3))
    ∷ schedules from_results
    ∷ []

asks_once : AskOnce floats one_job start_server
unfolding step schedule receive start_server on_join on_trigger on_request stride_of pieces min
    lookup insert delete on_result one_less better
asks_once = (tt, (tt, (tt, (tt, ((λ e. cc e, refl), (tt, (tt, (tt, tt))))))))

never_panics_example :
    (s : Server) × (run floats one_job start_server ≡ some s)
    × Counts (load (pos 74) s) (lookup (pos 74) s.tasks)
never_panics_example = never_panics floats one_job (pos 74) asks_once (λ e. cc e)

-- Miners 72 and 73 wait, client 74 asks, and the one trigger gives its first piece to a miner.
abbrev half_given : List Event
half_given =
    reads (message (pos 73) new_join)
    ∷ reads (message (pos 72) new_join)
    ∷ schedules from_joins
    ∷ schedules from_joins
    ∷ schedules (from_trigger true)
    ∷ schedules (from_trigger true)
    ∷ reads (message (pos 74) (new_request "msg" 0 9))
    ∷ schedules from_requests
    ∷ schedules (from_trigger true)
    ∷ []

half_asks_once : AskOnce floats half_given start_server
unfolding step schedule receive start_server on_join on_trigger on_request stride_of pieces min
    lookup insert
half_asks_once = (tt, (tt, (tt, (tt, (tt, (tt, (tt, ((λ e. cc e, refl), (tt, tt)))))))))

half_goes_well : GoWell floats half_given start_server
unfolding step schedule receive start_server on_join on_trigger on_request stride_of pieces min
    lookup insert
half_goes_well = (tt, (tt, (tt, (tt, (refl, (refl, (tt, (tt, (refl, tt)))))))))

never_stalls_example :
    (s : Server) × (run floats half_given start_server ≡ some s)
    × ((s.free_miners ≡ []) ⊎ (s.pending_requests ≡ []) ⊎ (0 < s.triggers) ⊎ Busy s.miners)
never_stalls_example = never_stalls floats half_given half_asks_once half_goes_well

abbrev asked : Request
asked = record { id = pos 74; lower = 0; upper = 9; data_text = "msg" }

request_covered_example :
    (q : Request) × In q (on_request floats asked start_server).pending_requests
    × ((q.id ≡ pos 74) × (q.data_text ≡ "msg") × (q.upper ≤ 9))
    × (q.lower ≤ 7)
    × (7 ≤ q.upper)
unfolding start_server stride_of
request_covered_example =
    request_covered floats asked start_server 7 (λ h. omega arith) (omega arith) (omega arith)
      (omega arith)

-- Client 74 is lost, and client 75 waits behind it.
abbrev lost_first : Server
lost_first = record {
  joins = [];
  requests = [];
  results = [];
  errors = [];
  free_miners = pos 73 ∷ [];
  miners = [];
  pending_requests = asked ∷ record { id = pos 75; lower = 0; upper = 9; data_text = "msg" } ∷ [];
  tasks =
      (pos 74, record { lost = true; best = nothing; miners = pos 1 })
      ∷ (pos 75, record { lost = false; best = nothing; miners = pos 1 })
      ∷ [];
  triggers = 1;
}

-- The trigger goes with the piece of the lost client; the other piece waits, and so does the miner.
lost_first_stalls :
    schedule floats (from_trigger true) lost_first
    ≡ some (
      record (lost_first) {
        triggers = 0;
        pending_requests = record { id = pos 75; lower = 0; upper = 9; data_text = "msg" } ∷ [];
      },
      [],
    )
unfolding schedule take_trigger on_trigger dispatch lookup
lost_first_stalls = refl

abbrev task : Message
task = new_request "msg" 0 9

abbrev hash : String → ℕ → ℕ
hash text n = suc (n * 5)

mine_least_example :
    let top = 0 + 2 * (span task / 2) in
    (b : Found) × (mine hash (λ n. pos 2) (λ bs. bs) task ≡ some (new_result b.hash b.nonce))
    × (b.hash ≡ hash "msg" b.nonce)
    × (0 ≤ b.nonce)
    × (b.nonce ≤ top)
    × ((x : ℕ) → 0 ≤ x → x ≤ top → b.hash ≤ hash "msg" x)
    × (top ≤ 9)
mine_least_example =
    mine_least hash (λ n. pos 2) (λ bs. bs) task 1 (λ n. omega arith) (λ P bs all. all)
      (λ b bs i. i) (omega arith) (omega arith) refl
