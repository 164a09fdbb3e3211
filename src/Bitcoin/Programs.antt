-- ===== src/Bitcoin/Programs.antt =====
-- project-2/src/example.com/bitcoin: the programs miner/miner.go and client/client.go around the search
-- and the messages. What `NewClient`, `Read` and `Write` of lsp return is given; encoding/json decodes
-- what it encoded.
use Prim.Native.String.{String}
use dsystem_homework.Base.{
  ℕ, ℤ, Bool, true, false, List, [], ◌∷◌, ◌++◌, Option, none, some, if◌then◌else◌, ◌&&◌,
}
use dsystem_homework.Bitcoin.Message.{
  MsgType, join, request, result, Message, new_join, new_request,
}
use dsystem_homework.Bitcoin.Best.{Found}
use dsystem_homework.Bitcoin.Miner.{mine}

-- How a program stands: it waits, has returned, or has panicked.
pub data Ending : Type 0 where
  waits returns panics : Ending

abbrev pub is_request : MsgType → Bool
is_request join = false
is_request request = true
is_request result = false

abbrev pub answered : Message → Ending × List Message → Ending × List Message
answered r (ending, written) = (ending, r ∷ written)

-- A message that was handed to `Write`: with an error the miner returns.
abbrev pub wrote : Bool → Message → Ending × List Message → Ending × List Message
wrote ok r later = if ok then answered r later else (returns, r ∷ [])

-- A round of the miner's loop: what `Read` returns, none for an error, and whether `Write` succeeds.
pub record MinerRound : Type 0 where
  pub reads : Option Message
  pub writes : Bool

module _ (hash : String → ℕ → ℕ) (floor_log : ℕ → ℤ) (arrive : List Found → List Found) where
  answer_with : Bool → Option Message → Ending × List Message → Ending × List Message
  answer_with ok none later = (panics, [])
  answer_with ok (some r) later = wrote ok r later

  mine_round : Bool → Option Message → Ending × List Message → Ending × List Message
  unfolding answer_with
  mine_round ok none later = (returns, [])
  mine_round ok (some m) later =
      if is_request m.type then answer_with ok (mine hash floor_log arrive m) later else later

  -- The loop of the miner: how it ends, and what it hands to `Write`.
  unfoldable pub mine_loop : List MinerRound → Ending × List Message
  unfolding mine_round
  mine_loop [] = (waits, [])
  mine_loop (r ∷ rounds) = mine_round r.writes r.reads (mine_loop rounds)

  -- `main` of the miner with `joinWithServer`: whether it has its log file and one argument, whether
  -- `NewClient` gives no error, and whether the join is written.
  unfoldable pub miner_main : Bool → Bool → Bool → List MinerRound → Ending × List Message
  miner_main ready connected joined rounds =
      if ready && connected then wrote joined new_join (mine_loop rounds) else (returns, [])

-- What the client prints: its usage, that the argument is no number, that it cannot connect, the
-- result, or that it is disconnected.
pub data Printed : Type 0 where
  usage not_a_number failed_to_connect disconnected : Printed
  prints_result : ℕ → ℕ → Printed

-- The case that the `select` of the client takes.
pub data Heard : Type 0 where
  from_recv : Message → Heard
  from_timer from_error : Heard

unfoldable pub on_heard : Heard → Printed
on_heard (from_recv m) = prints_result m.hash m.nonce
on_heard from_timer = disconnected
on_heard from_error = disconnected

-- The arguments of the client: a message and a largest nonce, none for what is no number.
pub record Arguments : Type 0 where
  pub message : String
  pub max_nonce : Option ℕ

-- After the connection: a failed write is printed, and the client waits all the same.
ask : String → ℕ → Bool → Heard → List Printed × List Message
ask message max_nonce written heard = (
  (if written then [] else disconnected ∷ []) ++ on_heard heard ∷ [],
  new_request message 0 max_nonce ∷ [],
)

with_number : Bool → Bool → Heard → String → Option ℕ → List Printed × List Message
unfolding ask
with_number connected written heard message none = (not_a_number ∷ [], [])
with_number connected written heard message (some max_nonce) =
    if connected then ask message max_nonce written heard else (failed_to_connect ∷ [], [])

-- `main` of the client, none for another number of arguments: what it prints and what it writes.
unfoldable pub client_main : Bool → Bool → Heard → Option Arguments → List Printed × List Message
unfolding with_number
client_main connected written heard none = (usage ∷ [], [])
client_main connected written heard (some a) =
    with_number connected written heard a.message a.max_nonce
