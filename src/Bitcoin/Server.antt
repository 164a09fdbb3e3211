-- ===== src/Bitcoin/Server.antt =====
-- project-2/src/example.com/bitcoin/server/server.go: the server that hands pieces of its clients'
-- requests to miners: its state and its `receive`. Lsp/Server is what `lspServer` stands on.
pub mod Schedule
use Prim.Native.String.{String}
use dsystem_homework.Base.{
  ℕ, zero, suc, ◌+◌, ◌*◌, ◌%◌, ◌^◌, ℤ, pos, negsuc, int_eq, int_beq, ltb, Bool, true, false, not,
  ◌&&◌, List, [], ◌∷◌, ◌++◌, Option, none, some, length, is_empty, if◌then◌else◌, Dict, lookup,
  insert, delete,
}
use dsystem_homework.Bitcoin.Message
use dsystem_homework.Bitcoin.Message.{MsgType, Message, new_request, new_result}
use dsystem_homework.Bitcoin.Best.{Found, better}

pub record Task : Type 0 where
  pub lost : Bool
  pub best : Found  -- `minHash` and `minNonce`
  pub miners : ℤ

pub record Request : Type 0 where
  pub id : ℤ
  pub lower : ℕ
  pub upper : ℕ
  pub data_text : String

pub record Result : Type 0 where
  pub id : ℤ
  pub found : Found  -- `hash` and `nonce`

pub record Miner : Type 0 where
  pub client_id : ℤ
  pub data_text : String
  pub upper : ℕ
  pub lower : ℕ

pub record Server : Type 0 where
  pub joins : List ℤ
  pub requests : List Request
  pub results : List Result
  pub errors : List ℤ
  pub free_miners : List ℤ
  pub miners : Dict ℤ Miner
  pub pending_requests : List Request
  pub tasks : Dict ℤ Task
  pub triggers : ℕ  -- how many signals the channel `trigger` holds

unfoldable pub start_server : Server
start_server = record {
  joins = [];
  requests = [];
  results = [];
  errors = [];
  free_miners = [];
  miners = [];
  pending_requests = [];
  tasks = [];
  triggers = 0;
}

-- What `lspServer.Read` returns: a message or the loss of a connection.
pub data Input : Type 0 where
  message : ℤ → Message → Input
  connection_lost : ℤ → Input

receive_message : MsgType → ℤ → Message → Server → Server
receive_message Message.join id m s = record s { joins = s.joins ++ id ∷ [] }
receive_message Message.request id m s =
    let r : Request = record {
      id = id;
      lower = m.lower;
      upper = m.upper;
      data_text = m.data_text;
    } in
    record s { requests = s.requests ++ r ∷ [] }
receive_message Message.result id m s =
    let r : Result = record { id = id; found = record { hash = m.hash; nonce = m.nonce } } in
    record s { results = s.results ++ r ∷ [] }

-- A round of `receive`.
unfoldable pub receive : Input → Server → Server
unfolding receive_message
receive (message id m) s = receive_message m.type id m s
receive (connection_lost id) s = record s { errors = s.errors ++ id ∷ [] }
