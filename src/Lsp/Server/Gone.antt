-- ===== src/Lsp/Server/Gone.antt =====
-- A number that was taken out of the table of project-2/src/example.com/lsp/server_impl.go never comes
-- back to it.
use dsystem_homework.Base.{
  ℕ, ◌<◌, ℤ, pos, int_eq, false, ◌&&◌, List, [], ◌∷◌, ◌≡◌, inl, inr, lookup, arith, Bool-cases,
  Option-cases, is_empty, if◌then◌else◌,
}
use dsystem_homework.Lsp.Message.{Message, MsgType, msg_connect, msg_data, msg_ack}
use dsystem_homework.Lsp.Status.{has_status, start_closing, handler_closed}
use dsystem_homework.Lsp.Endpoint.{Turn}
use dsystem_homework.Lsp.Info.{Addr, ClientInfo}
use dsystem_homework.Lsp.Server.{
  AddressableMessage, Server, registered, find_client, has_addr, accept, on_connect, pass_on,
  on_incoming, remove_client, on_cls, to_incoming, to_tmsg, Choice, from_incoming, from_outgoing,
  from_cls, take_incoming, take_outgoing, take_cls, select, handle, run_client,
}
use dsystem_homework.Lsp.Server.Methods.{
  Op, handles, serves, reads, writes, closes_conn, closes, hears, unplugged, read_leaves, write,
  close_conn, start_close, received, read_failed, step, run,
}
use dsystem_homework.Lsp.Server.Clients.{registered-append, registered-unregister}

-- The number was given, and it is not in the table.
pub record Gone (k : ℕ) (s : Server) : Type 0 where
  pub absent : registered (pos k) s.clients ≡ false
  pub given : k < s.last_conn_id

module _ {k : ℕ} where
  pass_on-Gone :
      (put : Message → ClientInfo → ClientInfo) (m : Message) (s : Server)
      → Gone k s
      → Gone k (pass_on put m s)
  unfolding pass_on
  pass_on-Gone put m s g = elim (Option-cases (find_client m.conn_id s)) [
    | inl e ↦ rw (e, pass_on) g
    | inr (c, e) ↦ rw (e, pass_on) (record { absent = g.absent; given = g.given })
  ]

  accept-Gone : (addr : Addr) (s : Server) → Gone k s → Gone k (accept addr s).0
  unfolding accept
  accept-Gone addr s g = record {
    absent = rw registered-append (ground (arith, g.absent, g.given));
    given = omega (arith, g.given);
  }

  on_connect-Gone : (addr : Addr) (s : Server) → Gone k s → Gone k (on_connect addr s).0
  unfolding on_connect
  on_connect-Gone addr s g = elim (Bool-cases (has_addr addr s.infos s.clients)) [
    | inl known ↦ rw known g
    | inr free ↦ rw free (accept-Gone addr s g)
  ]

  on_incoming-Gone :
      (t : MsgType) (am : AddressableMessage) (s : Server)
      → Gone k s
      → Gone k (on_incoming t am s).0
  unfolding on_incoming
  on_incoming-Gone msg_connect am s g = on_connect-Gone am.addr s g
  on_incoming-Gone msg_data am s g = pass_on-Gone to_incoming am.message s g
  on_incoming-Gone msg_ack am s g = pass_on-Gone to_incoming am.message s g

  remove_client-Gone : (id : ℤ) (s : Server) → Gone k s → Gone k (remove_client id s)
  unfolding remove_client
  remove_client-Gone id s g = elim (Option-cases (find_client id s)) [
    | inl e ↦ rw (e, remove_client) g
    | inr (c, e) ↦
        rw (e, remove_client)
          (record {
            absent = ground (arith, registered-unregister id (pos k) s.clients, g.absent);
            given = g.given;
          })
  ]

  pub last_close-Gone :
      (s : Server)
      → Gone k s
      → Gone k (
          if is_empty s.clients && has_status s.status start_closing
          then record s { status = handler_closed; running = false }
          else s)
  last_close-Gone s g =
      elim (Bool-cases (is_empty s.clients && has_status s.status start_closing)) [
        | inl last ↦ rw last (record { absent = g.absent; given = g.given })
        | inr more ↦ rw more g
      ]

  on_cls-Gone : (id : ℤ) (s : Server) → Gone k s → Gone k (on_cls id s)
  unfolding on_cls
  on_cls-Gone id s g = last_close-Gone (remove_client id s) (remove_client-Gone id s g)

  take_incoming-Gone :
      (ams : List AddressableMessage) (s : Server) → Gone k s → Gone k (take_incoming ams s).0
  unfolding take_incoming
  take_incoming-Gone [] s g = g
  take_incoming-Gone (am ∷ rest) s g =
      on_incoming-Gone am.message.type am _ (record { absent = g.absent; given = g.given })

  take_outgoing-Gone : (ms : List Message) (s : Server) → Gone k s → Gone k (take_outgoing ms s)
  unfolding take_outgoing
  take_outgoing-Gone [] s g = g
  take_outgoing-Gone (m ∷ rest) s g =
      pass_on-Gone to_tmsg m _ (record { absent = g.absent; given = g.given })

  take_cls-Gone : (ids : List ℤ) (s : Server) → Gone k s → Gone k (take_cls ids s)
  unfolding take_cls
  take_cls-Gone [] s g = g
  take_cls-Gone (id ∷ rest) s g = on_cls-Gone id _ (record { absent = g.absent; given = g.given })

  select-Gone : (choice : Choice) (s : Server) → Gone k s → Gone k (select choice s).0
  unfolding select
  select-Gone from_incoming s g = take_incoming-Gone s.incoming s g
  select-Gone from_outgoing s g = take_outgoing-Gone s.outgoing s g
  select-Gone from_cls s g = take_cls-Gone s.cls s g

  handle-Gone : (choice : Choice) (s : Server) → Gone k s → Gone k (handle choice s).0
  unfolding handle
  handle-Gone choice s g = elim (Bool-cases s.running) [
    | inl on ↦ simp on (select-Gone choice s g)
    | inr off ↦ simp off g
  ]

  run_client-Gone : (t : Turn) (id : ℤ) (s : Server) → Gone k s → Gone k (run_client t id s).0
  unfolding run_client
  run_client-Gone t id s g = elim (Option-cases (lookup id s.infos)) [
    | inl e ↦ rw (e, run_client) g
    | inr (c, e) ↦ rw (e, run_client) (record { absent = g.absent; given = g.given })
  ]

  read_failed-Gone : (s : Server) → Gone k s → Gone k (read_failed s)
  unfolding read_failed
  read_failed-Gone s g = elim (Bool-cases (has_status s.status handler_closed)) [
    | inl stop ↦ rw stop (record { absent = g.absent; given = g.given })
    | inr go ↦ rw go g
  ]

  step-Gone : (op : Op) (s : Server) → Gone k s → Gone k (step op s)
  unfolding step write close_conn start_close received
  step-Gone (handles choice) s g = handle-Gone choice s g
  step-Gone (serves t id) s g = run_client-Gone t id s g
  step-Gone (reads prefer_data) s g =
      read_leaves (Gone k) s (λ rmsg err. record { absent = g.absent; given = g.given }) prefer_data
  step-Gone (writes id payload) s g = record { absent = g.absent; given = g.given }
  step-Gone (closes_conn id) s g = record { absent = g.absent; given = g.given }
  step-Gone closes s g = record { absent = g.absent; given = g.given }
  step-Gone (hears am) s g = record { absent = g.absent; given = g.given }
  step-Gone unplugged s g = read_failed-Gone s g

  pub run-Gone : (ops : List Op) (s : Server) → Gone k s → Gone k (run ops s)
  unfolding run
  run-Gone [] s g = g
  run-Gone (op ∷ ops) s g = run-Gone ops (step op s) (step-Gone op s g)
