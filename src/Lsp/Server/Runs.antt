-- ===== src/Lsp/Server/Runs.antt =====
-- Runs of the server of project-2/src/example.com/lsp/server_impl.go: what its table of clients
-- keeps whatever happens at it.
use dsystem_homework.Base.{
  ℕ, ◌≤◌, ◌≡◌, refl, inl, inr, ℤ, int_eq, pos, Bool, true, false, List, [], ◌∷◌, some, lookup,
  arith, Bool-cases, Option-cases,
}
use dsystem_homework.Lsp.Message.{Message, MsgType, msg_connect, msg_data, msg_ack}
use dsystem_homework.Lsp.Status.{Params, has_status, handler_closed}
use dsystem_homework.Lsp.Endpoint.{Turn, reads_channel, timer_fires, falls_through, close_ready}
use dsystem_homework.Lsp.Info
use dsystem_homework.Lsp.Info.{Addr, ClientInfo, ClientData, ClientError, Round, handle_client}
use dsystem_homework.Lsp.Server.{
  AddressableMessage, Server, new_server, registered, to_incoming, to_tmsg, on_incoming, Choice,
  from_incoming, from_outgoing, from_cls, take_incoming, take_outgoing, take_cls, select, handle,
  run_client,
}
use dsystem_homework.Lsp.Server.Methods.{
  Op, handles, serves, reads, writes, closes_conn, closes, hears, unplugged, read, read_leaves,
  after_read, write, close_conn, start_close, received, read_failed, step, run,
}
use dsystem_homework.Lsp.Server.Clients.{
  Inv, addr_at, Calm-Inv, pass_on-Inv, on_connect-Inv, on_cls-Inv, put-Calm,
}

on_incoming-Inv :
    (t : MsgType) (am : AddressableMessage) (s : Server) → Inv s → Inv (on_incoming t am s).0
unfolding on_incoming
on_incoming-Inv msg_connect am s inv = on_connect-Inv am.addr s inv
on_incoming-Inv msg_data am s inv = pass_on-Inv to_incoming am.message s (λ c. refl) inv
on_incoming-Inv msg_ack am s inv = pass_on-Inv to_incoming am.message s (λ c. refl) inv

take_incoming-Inv :
    (ams : List AddressableMessage) (s : Server) → Inv s → Inv (take_incoming ams s).0
unfolding take_incoming
take_incoming-Inv [] s inv = inv
take_incoming-Inv (am ∷ rest) s inv =
    on_incoming-Inv am.message.type am _ (record { unique = inv.unique; fresh = inv.fresh })

take_outgoing-Inv : (ms : List Message) (s : Server) → Inv s → Inv (take_outgoing ms s)
unfolding take_outgoing
take_outgoing-Inv [] s inv = inv
take_outgoing-Inv (m ∷ rest) s inv =
    pass_on-Inv to_tmsg m _ (λ c. refl) (record { unique = inv.unique; fresh = inv.fresh })

take_cls-Inv : (ids : List ℤ) (s : Server) → Inv s → Inv (take_cls ids s)
unfolding take_cls
take_cls-Inv [] s inv = inv
take_cls-Inv (id ∷ rest) s inv = on_cls-Inv id _ (record { unique = inv.unique; fresh = inv.fresh })

select-Inv : (choice : Choice) (s : Server) → Inv s → Inv (select choice s).0
unfolding select
select-Inv from_incoming s inv = take_incoming-Inv s.incoming s inv
select-Inv from_outgoing s inv = take_outgoing-Inv s.outgoing s inv
select-Inv from_cls s inv = take_cls-Inv s.cls s inv

handle-Inv : (choice : Choice) (s : Server) → Inv s → Inv (handle choice s).0
unfolding handle
handle-Inv choice s inv = elim (Bool-cases s.running) [
  | inl on ↦ simp on (select-Inv choice s inv)
  | inr off ↦ simp off inv
]

-- A handler does not change the address of its connection.
dispatch_addr :
    (t : MsgType) (m : Message) (c : ClientInfo) → (Info.dispatch t m c).info.addr ≡ c.addr
dispatch_addr msg_connect m c = refl
dispatch_addr msg_data m c = refl
dispatch_addr msg_ack m c = refl

take_incoming_addr :
    (c : ClientInfo) (ms : List Message) → (Info.take_incoming c ms).info.addr ≡ c.addr
unfolding Info.receive
take_incoming_addr c [] = refl
take_incoming_addr c (m ∷ rest) = dispatch_addr m.type m _

serve_addr :
    (closing : Bool) (t : Turn) (c : ClientInfo) → (Info.serve closing t c).info.addr ≡ c.addr
unfolding Info.tick Info.idle
serve_addr closing reads_channel c = take_incoming_addr c c.incoming
serve_addr closing timer_fires c = ground arith
serve_addr closing falls_through c = refl

handle_client_addr :
    (closing : Bool) (t : Turn) (c : ClientInfo) → (handle_client closing t c).info.addr ≡ c.addr
unfolding handle_client
handle_client_addr closing t c = elim (Bool-cases c.running) [
  | inr off ↦ simp off
  | inl on ↦ elim (Bool-cases (close_ready c.endpoint)) [
    | inl ready ↦ simp (on, ready)
    | inr busy ↦ simp (on, busy) (serve_addr closing t c)
  ]
]

run_client-Inv : (t : Turn) (id : ℤ) (s : Server) → Inv s → Inv (run_client t id s).0
unfolding run_client
run_client-Inv t id s inv = elim (Option-cases (lookup id s.infos)) [
  | inl e ↦ rw (e, run_client) inv
  | inr (c, e) ↦
      let calm =
        put-Calm s id c (handle_client s.bcls_closed t c).info e
          (handle_client_addr s.bcls_closed t c) in
      let kept = Calm-Inv calm inv in
      rw (e, run_client) (record { unique = kept.unique; fresh = kept.fresh })
]

read-Inv : (prefer_data : Bool) (s : Server) → Inv s → Inv (after_read s (read prefer_data s))
read-Inv prefer_data s inv =
    read_leaves Inv s (λ rmsg err. record { unique = inv.unique; fresh = inv.fresh }) prefer_data

step-Inv : (op : Op) (s : Server) → Inv s → Inv (step op s)
unfolding step write close_conn start_close received read_failed
step-Inv (handles choice) s inv = handle-Inv choice s inv
step-Inv (serves t id) s inv = run_client-Inv t id s inv
step-Inv (reads prefer_data) s inv = read-Inv prefer_data s inv
step-Inv (writes id payload) s inv = record { unique = inv.unique; fresh = inv.fresh }
step-Inv (closes_conn id) s inv = record { unique = inv.unique; fresh = inv.fresh }
step-Inv closes s inv = record { unique = inv.unique; fresh = inv.fresh }
step-Inv (hears am) s inv = record { unique = inv.unique; fresh = inv.fresh }
step-Inv unplugged s inv = elim (Bool-cases (has_status s.status handler_closed)) [
  | inl stop ↦ rw stop (record { unique = inv.unique; fresh = inv.fresh })
  | inr go ↦ rw go inv
]

run-Inv : (ops : List Op) (s : Server) → Inv s → Inv (run ops s)
unfolding run
run-Inv [] s inv = inv
run-Inv (op ∷ ops) s inv = run-Inv ops (step op s) (step-Inv op s inv)

new_server-Inv : (p : Params) → Inv (new_server p)
unfolding new_server registered
new_server-Inv p = record { unique = λ i j a ri rj ai aj. cc; fresh = λ n h. refl }

-- Whatever a server's goroutines do, in any order, and whatever methods are called on it and
-- messages reach it: two connections in its table with one address are the same connection.
pub one_connection_per_address :
    (p : Params) (ops : List Op) (i j : ℤ) (a : Addr)
    → let s = run ops (new_server p) in
      registered i s.clients ≡ true
      → registered j s.clients ≡ true
      → addr_at i s.infos ≡ some a
      → addr_at j s.infos ≡ some a
      → i ≡ j
one_connection_per_address p ops = (run-Inv ops (new_server p) (new_server-Inv p)).unique

-- On every run of a server, none of the numbers from `lastConnID` on, which it gives next, is in its
-- table.
pub next_numbers_free :
    (p : Params) (ops : List Op) (n : ℕ)
    → let s = run ops (new_server p) in s.last_conn_id ≤ n → registered (pos n) s.clients ≡ false
next_numbers_free p ops = (run-Inv ops (new_server p) (new_server-Inv p)).fresh
