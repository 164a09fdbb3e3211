-- ===== src/Lsp/Link.antt =====
-- A connection as a whole: a client of client_impl.go, the `clientInfo` of server_impl.go that
-- serves it, and a network between them that loses, repeats, reorders and cuts short; both in
-- project-2/src/example.com/lsp. What the server's own goroutine does between the network and the
-- `incoming` of a `clientInfo` is delay and loss, which the network has anyway; its queue of writes
-- is here. The server's end is there from the start; until a request arrives it has nothing to do.
mod Inert
mod ClientTurns
mod InfoTurns
pub mod Invariant
mod Queue
mod Stops
pub mod Delivery
pub mod Kept
pub mod Bound
pub mod Stale
use dsystem_homework.Base.{ℤ, pos, ◌≡◌, Bool, true, false, List, [], ◌∷◌, ◌++◌, some}
use dsystem_homework.Lsp.Message.{Bytes, Message, new_ack}
use dsystem_homework.Lsp.Status.{Params}
use dsystem_homework.Lsp.Endpoint.{Turn, Lost, unsent}
use dsystem_homework.Lsp.Client
use dsystem_homework.Lsp.Client.{Client, new_client, got, failed}
use dsystem_homework.Lsp.Info.{Addr, ClientInfo, new_info, handle_client}
use dsystem_homework.Lsp.Server.{to_incoming, to_tmsg, begin_closing}
use dsystem_homework.Lsp.Flow.{Arrives}
use InfoTurns.{data_of}

-- `up` and `down` have every message that was sent to the server and to the client. `written_up`
-- has the payloads that the client's `Write` got, `taken_up` those that reached the server's `rmsg`;
-- `written_down` those of the server's `Write`, `read_down` those that the client's `Read` gave. What
-- was written at the server is passed on to its end, or dropped, or still in the server's `outgoing`.
pub record Link : Type 0 where
  pub client : Client
  pub info : ClientInfo
  pub up : List Message
  pub down : List Message
  pub written_up : List Bytes
  pub taken_up : List Bytes
  pub written_down : List Bytes
  pub outgoing : List Bytes
  pub passed_down : List Bytes
  pub dropped : List Bytes
  pub read_down : List Bytes
  pub known : Bool  -- the connection is in the server's table
  pub closing : Bool  -- the server's `bcls` is closed

unfoldable pub start : Params → Params → ℤ → Addr → Link
start client_params server_params id addr = record {
  client = (new_client client_params).0;
  info = new_info id addr server_params;
  up = (new_client client_params).1;
  down = new_ack id (pos 0) ∷ [];
  written_up = [];
  taken_up = [];
  written_down = [];
  outgoing = [];
  passed_down = [];
  dropped = [];
  read_down = [];
  known = true;
  closing = false;
}

-- One call of a method, one arrival, or one round of a handler.
pub data Step (l : Link) : Link → Type 0 where
  client_writes :
      (payload : Bytes)
      → Step l (record l {
        client = Client.write payload l.client;
        written_up = l.written_up ++ payload ∷ [];
      })
  client_reads :
      (prefer_data : Bool) (payload : Bytes) (c : Client)
      → Client.read prefer_data l.client ≡ some (got payload, c)
      → Step l (record l { client = c; read_down = l.read_down ++ payload ∷ [] })
  client_fails :
      (prefer_data : Bool) (e : Lost) (c : Client)
      → Client.read prefer_data l.client ≡ some (failed e, c)
      → Step l (record l { client = c })
  client_hears :
      (m : Message) → Arrives l.down m → Step l (record l { client = Client.received m l.client })
  client_turns :
      (t : Turn)
      → Step l (record l {
        client = (Client.handle t l.client).0;
        up = l.up ++ (Client.handle t l.client).1;
      })
  client_closes : Step l (record l { client = Client.start_close l.client })
  client_polls : Step l (record l { client = (Client.close_round l.client).client })
  client_unplugged : Step l (record l { client = Client.read_failed l.client })
  server_writes :
      (payload : Bytes)
      → Step l (record l {
        outgoing = l.outgoing ++ payload ∷ [];
        written_down = l.written_down ++ payload ∷ [];
      })
  -- The server's handler takes a write from its queue.
  server_passes :
      (payload : Bytes) (rest : List Bytes)
      → l.outgoing ≡ payload ∷ rest
      → l.known ≡ true
      → Step l (record l {
        info = to_tmsg (unsent l.info.id payload) l.info;
        outgoing = rest;
        passed_down = l.passed_down ++ payload ∷ [];
      })
  server_drops :
      (payload : Bytes) (rest : List Bytes)
      → l.outgoing ≡ payload ∷ rest
      → l.known ≡ false
      → Step l (record l { outgoing = rest; dropped = l.dropped ++ payload ∷ [] })
  info_hears : (m : Message) → Arrives l.up m → Step l (record l { info = to_incoming m l.info })
  info_turns :
      (t : Turn)
      → Step l (record l {
        info = (handle_client l.closing t l.info).info;
        down = l.down ++ (handle_client l.closing t l.info).sent;
        taken_up = l.taken_up ++ data_of (handle_client l.closing t l.info).rmsg;
      })
  -- The server's handler takes a number from `cls`, that of this connection.
  info_closes : Step l (record l { info = begin_closing l.info; known = false })
  server_closes : Step l (record l { closing = true })

pub data Reach (l : Link) : Link → Type 0 where
  here : Reach l l
  next : {m n : Link} → Reach l m → Step m n → Reach l n
