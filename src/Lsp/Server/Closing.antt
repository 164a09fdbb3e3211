-- ===== src/Lsp/Server/Closing.antt =====
-- `Close` of project-2/src/example.com/lsp/server_impl.go on a server without clients.
use dsystem_homework.Base.{
  ℤ, int_eq, Bool, true, false, List, [], ◌∷◌, none, ◌≡◌, refl, inl, inr, lookup, All, All-append,
  arith, Bool-cases,
}
use dsystem_homework.Lsp.Message.{Message, MsgType, msg_connect, msg_data, msg_ack}
use dsystem_homework.Lsp.Status.{Params, start_closing}
use dsystem_homework.Lsp.Endpoint.{Turn}
use dsystem_homework.Lsp.Info.{ClientInfo}
use dsystem_homework.Lsp.Server.{
  AddressableMessage, Server, new_server, registered, find_client, pass_on, on_incoming,
  to_incoming, to_tmsg, Choice, from_incoming, from_outgoing, from_cls, take_incoming,
  take_outgoing, take_cls, select, handle, run_client,
}
use dsystem_homework.Lsp.Server.Methods.{
  Op, handles, serves, reads, writes, closes_conn, closes, hears, unplugged, read_leaves, write,
  start_close, received, read_failed, close_returns, step, run,
}
use dsystem_homework.Lsp.Server.Closed.{pass_on_unknown}

-- What keeps a server that nobody is connected to as it is: no connection is requested and none
-- is closed.
abbrev is_request : MsgType → Bool
is_request msg_connect = true
is_request msg_data = false
is_request msg_ack = false

abbrev pub Idle : Op → Type 0
Idle (handles choice) = Unit {0}
Idle (serves turn id) = Unit {0}
Idle (reads prefer_data) = Unit {0}
Idle (writes id payload) = Unit {0}
Idle (closes_conn id) = ⊥
Idle closes = Unit {0}
Idle (hears am) = is_request am.message.type ≡ false
Idle unplugged = Unit {0}

-- A server that is closing and that nobody is connected to.
record Lonely (s : Server) : Type 0 where
  nobody : s.clients ≡ []
  no_handlers : s.infos ≡ []
  no_closes : s.cls ≡ []
  closing : s.status ≡ start_closing
  no_requests : All (λ am. is_request am.message.type ≡ false) s.incoming

find_nobody : (id : ℤ) (s : Server) → s.clients ≡ [] → find_client id s ≡ none
unfolding find_client registered
find_nobody id s e = rw e refl

pass_on-Lonely :
    (put : Message → ClientInfo → ClientInfo) (m : Message) (s : Server)
    → Lonely s
    → Lonely (pass_on put m s)
pass_on-Lonely put m s w = rw (pass_on_unknown put m s (find_nobody m.conn_id s w.nobody)) w

on_incoming-Lonely :
    (t : MsgType) (am : AddressableMessage) (s : Server)
    → is_request t ≡ false
    → Lonely s
    → Lonely (on_incoming t am s).0
unfolding on_incoming
on_incoming-Lonely msg_connect am s h w = cc
on_incoming-Lonely msg_data am s h w = pass_on-Lonely to_incoming am.message s w
on_incoming-Lonely msg_ack am s h w = pass_on-Lonely to_incoming am.message s w

module _ (s : Server) (w : Lonely s) where
  take_incoming-Lonely :
      (ams : List AddressableMessage)
      → All (λ am. is_request am.message.type ≡ false) ams
      → Lonely (take_incoming ams s).0
  unfolding take_incoming
  take_incoming-Lonely [] all = w
  take_incoming-Lonely (am ∷ rest) (h, all) = on_incoming-Lonely am.message.type am _ h (record {
    nobody = w.nobody;
    no_handlers = w.no_handlers;
    no_closes = w.no_closes;
    closing = w.closing;
    no_requests = all;
  })

  take_outgoing-Lonely : (ms : List Message) → Lonely (take_outgoing ms s)
  unfolding take_outgoing
  take_outgoing-Lonely [] = w
  take_outgoing-Lonely (m ∷ rest) = pass_on-Lonely to_tmsg m _ (record {
    nobody = w.nobody;
    no_handlers = w.no_handlers;
    no_closes = w.no_closes;
    closing = w.closing;
    no_requests = w.no_requests;
  })

  select-Lonely : (choice : Choice) → Lonely (select choice s).0
  unfolding select take_cls
  select-Lonely from_incoming = take_incoming-Lonely s.incoming w.no_requests
  select-Lonely from_outgoing = take_outgoing-Lonely s.outgoing
  select-Lonely from_cls = simp w.no_closes w

  handle-Lonely : (choice : Choice) → Lonely (handle choice s).0
  unfolding handle
  handle-Lonely choice = elim (Bool-cases s.running) [
    | inl on ↦ simp on (select-Lonely choice)
    | inr off ↦ simp off w
  ]

  read_failed-Lonely : Lonely (read_failed s)
  unfolding read_failed
  read_failed-Lonely = ground (arith, w.closing, w)

  run_client-Lonely : (turn : Turn) (id : ℤ) → Lonely (run_client turn id s).0
  unfolding run_client lookup
  run_client-Lonely turn id =
      let unknown : lookup id s.infos ≡ none = rw w.no_handlers refl in rw (unknown, run_client) w

step-Lonely : (op : Op) (s : Server) → Idle op → Lonely s → Lonely (step op s)
unfolding step run_client write start_close received
step-Lonely (handles choice) s h w = handle-Lonely s w choice
step-Lonely (serves turn id) s h w = run_client-Lonely s w turn id
step-Lonely (reads prefer_data) s h w =
    read_leaves Lonely s
      (λ rmsg err. record {
        nobody = w.nobody;
        no_handlers = w.no_handlers;
        no_closes = w.no_closes;
        closing = w.closing;
        no_requests = w.no_requests;
      })
      prefer_data
step-Lonely (writes id payload) s h w = record {
  nobody = w.nobody;
  no_handlers = w.no_handlers;
  no_closes = w.no_closes;
  closing = w.closing;
  no_requests = w.no_requests;
}
step-Lonely (closes_conn id) s h w = absurd h
step-Lonely closes s h w = record {
  nobody = w.nobody;
  no_handlers = w.no_handlers;
  no_closes = w.no_closes;
  closing = refl;
  no_requests = w.no_requests;
}
step-Lonely (hears am) s h w = record {
  nobody = w.nobody;
  no_handlers = w.no_handlers;
  no_closes = w.no_closes;
  closing = w.closing;
  no_requests = All-append _ s.incoming _ w.no_requests (h, tt);
}
step-Lonely unplugged s h w = read_failed-Lonely s w

run-Lonely : (ops : List Op) (s : Server) → All Idle ops → Lonely s → Lonely (run ops s)
unfolding run
run-Lonely [] s all w = w
run-Lonely (op ∷ ops) s (h, all) w = run-Lonely ops (step op s) all (step-Lonely op s h w)

-- `Close`, called on a new server that no client connected to, does not return on any run on which
-- no connection is requested and `CloseConn` is not called.
pub close_waits_forever :
    (p : Params) (ops : List Op)
    → All Idle ops
    → close_returns (run ops (start_close (new_server p))) ≡ false
unfolding close_returns start_close new_server
close_waits_forever p ops all = rw (run-Lonely ops _ all begun).closing refl
  where
    begun : Lonely (start_close (new_server p))
    begun = record {
      nobody = refl;
      no_handlers = refl;
      no_closes = refl;
      closing = refl;
      no_requests = tt;
    }
