-- ===== src/Lsp/Link/ClientTurns.antt =====
-- A round of the client's handler, `Lsp.Client.handle`, keeps both streams of its connection.
use dsystem_homework.Base.{
  ◌+◌, ◌≡◌, refl, inl, inr, int_eq, List, [], ◌∷◌, ◌++◌, append_assoc, append-nil, nat_beq,
  Bool-cases,
}
use dsystem_homework.Lsp.Message.{Bytes, MsgType, msg_connect, msg_data, msg_ack, Message}
use dsystem_homework.Lsp.Endpoint.{
  Endpoint, Turn, reads_channel, timer_fires, falls_through, on_data, close_ready,
}
use dsystem_homework.Lsp.Client
use dsystem_homework.Lsp.Client.{Client, is_negative}
use dsystem_homework.Lsp.Flow.Ends.{View, view, Ends, Ends-skip}
use dsystem_homework.Lsp.Flow.Acts.{Ends-forget, Ends-data, Ends-send_next}
use dsystem_homework.Lsp.Link.Inert.{client_reminders-IsInert, on_ack_lem, Ends-resend}

module _ (Y : View) (written taken : List Bytes) (net queue : List Message) (written' : List Bytes)
    (net' : List Message) where
  -- `seen` are the payloads that `Read` has returned; `rmsg` has those that wait for it.
  abbrev pub ClientEnds : List Bytes → List Message → Client → Type 0
  ClientEnds seen sends c =
      Ends (view c.endpoint) Y written taken (net ++ sends) queue written' (seen ++ c.rmsg) net'
        c.incoming

  client_dispatch-Ends :
      (seen : List Bytes) (c : Client) (m : Message) (t : MsgType)
      → m.type ≡ t
      → Ends
          (view c.endpoint)
          Y
          written
          taken
          net
          queue
          written'
          (seen ++ c.rmsg)
          net'
          (m ∷ c.incoming)
      → let r = Client.dispatch t m c in ClientEnds seen r.1 r.0
  client_dispatch-Ends seen c m msg_connect is_type e =
      rw (append-nil net) (Ends-skip m c.incoming e)
  client_dispatch-Ends seen c m msg_data is_data e =
      rw (← append_assoc seen c.rmsg (on_data m c.endpoint).delivered)
        (Ends-data c.endpoint m c.incoming is_data e)
  client_dispatch-Ends seen c m msg_ack is_ack e = rw (append-nil net) (
      on_ack_lem (λ v rmsg rest. Ends v Y written taken net queue written' (seen ++ rmsg) net' rest)
        m c (Ends-forget c.endpoint m c.incoming is_ack e))

  client_take-Ends :
      (seen : List Bytes) (c : Client) (ms : List Message)
      → c.incoming ≡ ms
      → ClientEnds seen [] c
      → let r = Client.take_incoming c ms in ClientEnds seen r.1 r.0
  unfolding Client.receive
  client_take-Ends seen c [] head e = e
  client_take-Ends seen c (m ∷ rest) head e =
      client_dispatch-Ends seen _ m m.type refl (rw head at (rw (append-nil net) at e))

  client_tick-Ends :
      (seen : List Bytes) (c : Client)
      → ClientEnds seen [] c
      → let r = Client.tick c in ClientEnds seen r.1 r.0
  unfolding Client.tick
  client_tick-Ends seen c e = elim (Bool-cases (nat_beq (c.epoch_count + 1) c.retries)) [
    | inl over ↦ rw over e
    | inr more ↦
        let next : Endpoint = record (c.endpoint) { epoch_count = c.epoch_count + 1 } in
        rw more (
          Ends-resend next (Client.reminders next) (client_reminders-IsInert next)
            (rw (append-nil net) at e))
  ]

  client_serve-Ends :
      (seen : List Bytes) (t : Turn) (c : Client)
      → ClientEnds seen [] c
      → let r = Client.serve t c in ClientEnds seen r.1 r.0
  unfolding Client.idle
  client_serve-Ends seen reads_channel c e = client_take-Ends seen c c.incoming refl e
  client_serve-Ends seen timer_fires c e = client_tick-Ends seen c e
  client_serve-Ends seen falls_through c e = Ends-send_next c.endpoint (rw (append-nil net) at e)

  -- A round of the client's handler.
  pub client_handle-Ends :
      (seen : List Bytes) (t : Turn) (c : Client)
      → ClientEnds seen [] c
      → let r = Client.handle t c in ClientEnds seen r.1 r.0
  unfolding Client.handle
  client_handle-Ends seen t c e = elim (Bool-cases c.running) [
    | inl on ↦ elim (Bool-cases (close_ready c.endpoint)) [
      | inl ready ↦ simp (on, ready) e
      | inr busy ↦ simp (on, busy) (client_serve-Ends seen t c e)
    ]
    | inr off ↦ simp off e
  ]
