-- ===== src/Lsp/Server.antt =====
-- project-2/src/example.com/lsp/server_impl.go: the server, its handler and its methods. The map
-- `clients` holds pointers: `infos` is the heap of the `clientInfo` objects by number, which the
-- handlers of the connections share, and `clients` has the keys of the map.
pub mod Methods
pub mod Clients
pub mod Runs
pub mod Gone
pub mod Closed
pub mod Closing
mod Tests
use text.Mathlib.Text.{◌==◌ as str_eq}
use dsystem_homework.Base.{
  ℕ, suc, ℤ, pos, int_eq, int_beq, Bool, true, false, ◌&&◌, ◌||◌, List, [], ◌∷◌, ◌++◌, map, Option,
  none, some, is_empty, if◌then◌else◌, Dict, lookup, insert,
}
use dsystem_homework.Lsp.Message.{Bytes, MsgType, msg_connect, msg_data, msg_ack, Message, new_ack}
use dsystem_homework.Lsp.Status.{
  Status, not_closing, start_closing, handler_closed, connection_closed, has_status, new_status,
  Params,
}
use dsystem_homework.Lsp.Endpoint.{Turn, unsent, enqueue}
use dsystem_homework.Lsp.Info.{
  Addr, ClientInfo, ClientData, ClientError, Round, new_info, handle_client,
}

pub record AddressableMessage : Type 0 where
  pub message : Message
  pub addr : Addr

pub record Server : Type 0 where
  pub params : Params
  pub infos : Dict ℤ ClientInfo
  pub clients : List ℤ
  pub last_conn_id : ℕ
  pub incoming : List AddressableMessage
  pub outgoing : List Message
  pub rmsg : List ClientData
  pub status : Status
  pub err : List ClientError
  pub cls : List ℤ
  pub bcls_closed : Bool
  pub running : Bool  -- `handle` has not returned

unfoldable pub new_server : Params → Server
new_server params = record {
  params = params;
  infos = [];
  clients = [];
  last_conn_id = 73;
  incoming = [];
  outgoing = [];
  rmsg = [];
  status = new_status;
  err = [];
  cls = [];
  bcls_closed = false;
  running = true;
}

unfoldable pub registered : ℤ → List ℤ → Bool
registered id [] = false
registered id (k ∷ ks) = int_beq k id || registered id ks

unfoldable pub unregister : ℤ → List ℤ → List ℤ
unregister id [] = []
unregister id (k ∷ ks) = let rest = unregister id ks in if int_beq k id then rest else k ∷ rest

-- `s.clients[id]`
unfoldable pub find_client : ℤ → Server → Option ClientInfo
find_client id s = if registered id s.clients then lookup id s.infos else none

abbrev pub same_addr : Addr → Option ClientInfo → Bool
same_addr addr none = false
same_addr addr (some c) = str_eq c.addr addr

-- The loop that looks for a client with the address of a connection request.
unfoldable pub has_addr : Addr → Dict ℤ ClientInfo → List ℤ → Bool
has_addr addr infos [] = false
has_addr addr infos (id ∷ ids) = same_addr addr (lookup id infos) || has_addr addr infos ids

-- What goes to the network, with its address.
abbrev pub Packet : Type 0
Packet = Message × Addr

accept : Addr → Server → Server × List Packet
accept addr s =
    let id : ℤ = pos s.last_conn_id in
    (
      record s {
        infos = insert id (new_info id addr s.params) s.infos;
        clients = s.clients ++ id ∷ [];
        last_conn_id = suc s.last_conn_id;
      },
      (new_ack id (pos 0), addr) ∷ [],
    )

-- `case MsgConnect`
unfoldable pub on_connect : Addr → Server → Server × List Packet
unfolding accept
on_connect addr s = if has_addr addr s.infos s.clients then (s, []) else accept addr s

-- `default`, and `case m := <-s.outgoing`: a message for a client that is not in the map is lost.
unfoldable pub pass_on : (Message → ClientInfo → ClientInfo) → Message → Server → Server
pass_on put m s = elim (find_client m.conn_id s) [
  | none ↦ s
  | some c ↦ record s { infos = insert m.conn_id (put m c) s.infos }
]

abbrev pub to_incoming : Message → ClientInfo → ClientInfo
to_incoming m c = record c { incoming = c.incoming ++ m ∷ [] }

abbrev pub to_tmsg : Message → ClientInfo → ClientInfo
to_tmsg m c = record c { endpoint = enqueue m c.endpoint }

pub on_incoming : MsgType → AddressableMessage → Server → Server × List Packet
on_incoming msg_connect am s = on_connect am.addr s
on_incoming msg_data am s = (pass_on to_incoming am.message s, [])
on_incoming msg_ack am s = (pass_on to_incoming am.message s, [])

abbrev pub begin_closing : ClientInfo → ClientInfo
begin_closing c =
    if has_status c.status not_closing
    then record c { endpoint = record (c.endpoint) { status = start_closing } }
    else c

remove_client : ℤ → Server → Server
remove_client id s = elim (find_client id s) [
  | none ↦ s
  | some c ↦ record s {
    infos = insert id (begin_closing c) s.infos;
    clients = unregister id s.clients;
  }
]

-- `case id := <-s.cls`
unfoldable pub on_cls : ℤ → Server → Server
unfolding remove_client
on_cls id s =
    let s' = remove_client id s in
    if is_empty s'.clients && has_status s'.status start_closing
    then record s' { status = handler_closed; running = false }
    else s'

-- The case that the `select` of `handle` takes.
pub data Choice : Type 0 where
  from_incoming from_outgoing from_cls : Choice

take_incoming : List AddressableMessage → Server → Server × List Packet
unfolding on_incoming
take_incoming [] s = (s, [])
take_incoming (am ∷ rest) s = on_incoming am.message.type am (record s { incoming = rest })

take_outgoing : List Message → Server → Server
take_outgoing [] s = s
take_outgoing (m ∷ rest) s = pass_on to_tmsg m (record s { outgoing = rest })

take_cls : List ℤ → Server → Server
take_cls [] s = s
take_cls (id ∷ rest) s = on_cls id (record s { cls = rest })

-- One round of `handle`; a case whose channel is empty is not taken, and the round waits.
select : Choice → Server → Server × List Packet
unfolding take_incoming take_outgoing take_cls
select from_incoming s = take_incoming s.incoming s
select from_outgoing s = (take_outgoing s.outgoing s, [])
select from_cls s = (take_cls s.cls s, [])

unfoldable pub handle : Choice → Server → Server × List Packet
unfolding select
handle choice s = if s.running then select choice s else (s, [])

abbrev pub after_round : ℤ → Round → Server → Server × List Packet
after_round id r s = (
  record s {
    infos = insert id r.info s.infos;
    rmsg = s.rmsg ++ r.rmsg;
    err = s.err ++ r.err;
    cls = s.cls ++ r.cls;
  },
  map (λ m. (m, r.info.addr)) r.sent,
)

-- A round of the handler of connection `id`.
unfoldable pub run_client : Turn → ℤ → Server → Server × List Packet
run_client turn id s = elim (lookup id s.infos) [
  | none ↦ (s, [])
  | some c ↦ after_round id (handle_client s.bcls_closed turn c) s
]
