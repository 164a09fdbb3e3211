-- ===== src/Lsp/Kept.antt =====
-- The rule for invariants of one end: what every operation of Lsp/Endpoint keeps, both handlers of
-- project-2/src/example.com/lsp keep.
use dsystem_homework.Base.{
  ℕ, ◌+◌, ◌≡◌, sym, subst, inl, inr, ℤ, int_eq, Bool, List, [], ◌∷◌, nat_beq, lookup, Bool-cases,
  Option-cases, ◌&&◌,
}
use dsystem_homework.Lsp.Message.{Message, MsgType, msg_connect, msg_data, msg_ack}
use dsystem_homework.Lsp.Status.{Status, not_closing, start_closing, handler_closed, has_status}
use dsystem_homework.Lsp.Endpoint.{
  Endpoint, Turn, reads_channel, timer_fires, falls_through, enqueue, on_data, forget, send_next,
  close_ready,
}
use dsystem_homework.Lsp.Client
use dsystem_homework.Lsp.Client.{Client}
use dsystem_homework.Lsp.Info
use dsystem_homework.Lsp.Info.{ClientInfo, handle_client}

pub record Kept (P : Endpoint → Type 0) : Type 0 where
  pub by_data : (m : Message) (c : Endpoint) → P c → P (on_data m c).endpoint
  pub by_ack : (sq : ℤ) (c : Endpoint) → P c → P (forget sq c)
  pub by_send : (c : Endpoint) → P c → P (send_next c).endpoint
  pub by_write : (m : Message) (c : Endpoint) → P c → P (enqueue m c)
  pub by_rest :
      (c : Endpoint) (id : ℤ) (epoch_count : ℕ) (status : Status)
      → P c
      → P (record c { id = id; epoch_count = epoch_count; status = status })

module _ {P : Endpoint → Type 0} (kept : Kept P) where
  client_dispatch-Kept :
      (t : MsgType) (m : Message) (c : Client) → P c.endpoint → P (Client.dispatch t m c).0.endpoint
  unfolding Client.on_ack
  client_dispatch-Kept msg_connect m c h = h
  client_dispatch-Kept msg_data m c h = kept.by_data m c.endpoint h
  client_dispatch-Kept msg_ack m c h = elim (Option-cases (lookup m.seq_num c.tbuffer)) [
    | inl gone ↦ rw (gone, Client.on_ack) h
    | inr (v, held) ↦
        let h' = kept.by_ack m.seq_num c.endpoint h in
        elim (Bool-cases (Client.answers_connect v c.id)) [
          | inl answers ↦ rw (held, Client.on_ack, answers) (kept.by_rest _ m.conn_id _ _ h')
          | inr late ↦ rw (held, Client.on_ack, late) h'
        ]
  ]

  client_take-Kept :
      (c : Client) (ms : List Message) → P c.endpoint → P (Client.take_incoming c ms).0.endpoint
  unfolding Client.receive
  client_take-Kept c [] h = h
  client_take-Kept c (m ∷ rest) h =
      client_dispatch-Kept m.type m _ (kept.by_rest c.endpoint c.id 0 c.status h)

  client_serve-Kept : (t : Turn) (c : Client) → P c.endpoint → P (Client.serve t c).0.endpoint
  unfolding Client.tick Client.idle
  client_serve-Kept reads_channel c h = client_take-Kept c c.incoming h
  client_serve-Kept timer_fires c h = elim (Bool-cases (nat_beq (c.epoch_count + 1) c.retries)) [
    | inl over ↦ rw over (kept.by_rest c.endpoint c.id _ handler_closed h)
    | inr more ↦ rw more (kept.by_rest c.endpoint c.id _ c.status h)
  ]
  client_serve-Kept falls_through c h = kept.by_send c.endpoint h

  pub client_handle-Kept : (t : Turn) (c : Client) → P c.endpoint → P (Client.handle t c).0.endpoint
  unfolding Client.handle
  client_handle-Kept t c h = elim (Bool-cases c.running) [
    | inl on ↦ elim (Bool-cases (close_ready c.endpoint)) [
      | inl ready ↦ simp (on, ready) (kept.by_rest c.endpoint c.id c.epoch_count handler_closed h)
      | inr busy ↦ simp (on, busy) (client_serve-Kept t c h)
    ]
    | inr off ↦ simp off h
  ]

  pub client_status-Kept :
      (c c' : Client)
      → c'.endpoint ≡ record (c.endpoint) { status = c'.status }
      → P c.endpoint
      → P c'.endpoint
  client_status-Kept c c' e h =
      subst P (sym e) (kept.by_rest c.endpoint c.id c.epoch_count c'.status h)

  info_dispatch-Kept :
      (t : MsgType) (m : Message) (c : ClientInfo)
      → P c.endpoint
      → P (Info.dispatch t m c).info.endpoint
  info_dispatch-Kept msg_connect m c h = h
  info_dispatch-Kept msg_data m c h = kept.by_data m c.endpoint h
  info_dispatch-Kept msg_ack m c h = kept.by_ack m.seq_num c.endpoint h

  info_take-Kept :
      (c : ClientInfo) (ms : List Message)
      → P c.endpoint
      → P (Info.take_incoming c ms).info.endpoint
  unfolding Info.receive
  info_take-Kept c [] h = h
  info_take-Kept c (m ∷ rest) h =
      info_dispatch-Kept m.type m _ (kept.by_rest c.endpoint c.id 0 c.status h)

  see_bcls-Kept : (closing : Bool) (c : Endpoint) → P c → P (Info.see_bcls closing c)
  see_bcls-Kept closing c h = elim (Bool-cases (has_status c.status not_closing && closing)) [
    | inl asked ↦ rw asked (kept.by_rest c c.id c.epoch_count start_closing h)
    | inr not_asked ↦ rw not_asked h
  ]

  info_serve-Kept :
      (closing : Bool) (t : Turn) (c : ClientInfo)
      → P c.endpoint
      → P (Info.serve closing t c).info.endpoint
  unfolding Info.tick Info.idle
  info_serve-Kept closing reads_channel c h = info_take-Kept c c.incoming h
  info_serve-Kept closing timer_fires c h =
      elim (Bool-cases (nat_beq (c.epoch_count + 1) c.retries)) [
        | inl over ↦ rw over (kept.by_rest c.endpoint c.id _ handler_closed h)
        | inr more ↦ rw more (kept.by_rest c.endpoint c.id _ c.status h)
      ]
  info_serve-Kept closing falls_through c h = see_bcls-Kept closing _ (kept.by_send c.endpoint h)

  pub info_handle-Kept :
      (closing : Bool) (t : Turn) (c : ClientInfo)
      → P c.endpoint
      → P (handle_client closing t c).info.endpoint
  unfolding handle_client
  info_handle-Kept closing t c h = elim (Bool-cases c.running) [
    | inl on ↦ elim (Bool-cases (close_ready c.endpoint)) [
      | inl ready ↦ simp (on, ready) (kept.by_rest c.endpoint c.id c.epoch_count handler_closed h)
      | inr busy ↦ simp (on, busy) (info_serve-Kept closing t c h)
    ]
    | inr off ↦ simp off h
  ]
