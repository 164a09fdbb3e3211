-- ===== src/Lsp/Link/InfoTurns.antt =====
-- A round of the handler of the server's end, `Lsp.Info.handle_client`, keeps both streams of its
-- connection.
use dsystem_homework.Base.{
  ◌+◌, ◌≡◌, refl, ap, inl, inr, ℤ, int_eq, Bool, List, [], ◌∷◌, ◌++◌, map, append-nil, nat_beq,
  arith, Bool-cases,
}
use dsystem_homework.Lsp.Message.{Bytes, MsgType, msg_connect, msg_data, msg_ack, Message}
use dsystem_homework.Lsp.Endpoint.{
  Endpoint, Turn, reads_channel, timer_fires, falls_through, on_data, forget, send_next,
  close_ready,
}
use dsystem_homework.Lsp.Info
use dsystem_homework.Lsp.Info.{ClientInfo, ClientData, Round, handle_client}
use dsystem_homework.Lsp.Flow.Ends.{View, view, Ends, Ends-skip}
use dsystem_homework.Lsp.Flow.Acts.{Ends-forget, Ends-data, Ends-send_next}
use dsystem_homework.Lsp.Link.Inert.{info_reminders-IsInert, Ends-resend}

abbrev pub data_of : List ClientData → List Bytes
data_of = map (λ (d : ClientData). d.payload)

data_of-map : (id : ℤ) (ds : List Bytes) → data_of (Info.to_server id ds) ≡ ds
data_of-map id [] = refl
data_of-map id (d ∷ ds) = ap (◌∷◌ d) (data_of-map id ds)

see_bcls-view : (closing : Bool) (c : Endpoint) → view (Info.see_bcls closing c) ≡ view c
see_bcls-view closing c = ground arith

module _ (Y : View) (written taken : List Bytes) (net queue : List Message) (written' : List Bytes)
    (net' : List Message) where
  -- `seen` are the payloads that were handed to the server's `rmsg` before the round.
  abbrev pub InfoEnds : List Bytes → List Message → ClientInfo → Type 0
  InfoEnds seen sends c =
      Ends (view c.endpoint) Y written taken (net ++ sends) queue written' seen net' c.incoming

  abbrev pub RoundEnds : List Bytes → Round → Type 0
  RoundEnds seen r = InfoEnds (seen ++ data_of r.rmsg) r.sent r.info

  stays :
      (seen : List Bytes) (c : ClientInfo) (sends : List Message)
      → InfoEnds seen sends c
      → RoundEnds seen (Info.quiet c sends)
  stays seen c sends e = rw (append-nil seen) e

  info_dispatch-Ends :
      (seen : List Bytes) (c : ClientInfo) (m : Message) (t : MsgType)
      → m.type ≡ t
      → Ends (view c.endpoint) Y written taken net queue written' seen net' (m ∷ c.incoming)
      → RoundEnds seen (Info.dispatch t m c)
  info_dispatch-Ends seen c m msg_connect is_type e =
      stays seen c [] (rw (append-nil net) (Ends-skip m c.incoming e))
  info_dispatch-Ends seen c m msg_data is_data e =
      rw (data_of-map c.id (on_data m c.endpoint).delivered)
        (Ends-data c.endpoint m c.incoming is_data e)
  info_dispatch-Ends seen c m msg_ack is_ack e =
      stays seen (record c { endpoint = forget m.seq_num c.endpoint }) []
        (rw (append-nil net) (Ends-forget c.endpoint m c.incoming is_ack e))

  info_take-Ends :
      (seen : List Bytes) (c : ClientInfo) (ms : List Message)
      → c.incoming ≡ ms
      → InfoEnds seen [] c
      → RoundEnds seen (Info.take_incoming c ms)
  unfolding Info.receive
  info_take-Ends seen c [] head e = stays seen c [] e
  info_take-Ends seen c (m ∷ rest) head e =
      info_dispatch-Ends seen _ m m.type refl (rw head at (rw (append-nil net) at e))

  info_tick-Ends :
      (seen : List Bytes) (c : ClientInfo) → InfoEnds seen [] c → RoundEnds seen (Info.tick c)
  unfolding Info.tick
  info_tick-Ends seen c e = elim (Bool-cases (nat_beq (c.epoch_count + 1) c.retries)) [
    | inl over ↦ rw over (rw (append-nil seen) e)
    | inr more ↦
        let next : Endpoint = record (c.endpoint) { epoch_count = c.epoch_count + 1 } in
        rw more (
          rw (append-nil seen) (
            Ends-resend next (Info.reminders next) (info_reminders-IsInert next)
              (rw (append-nil net) at e)))
  ]

  info_idle-Ends :
      (seen : List Bytes) (closing : Bool) (c : ClientInfo)
      → InfoEnds seen [] c
      → RoundEnds seen (Info.idle closing c)
  unfolding Info.idle
  info_idle-Ends seen closing c e =
      rw (append-nil seen, see_bcls-view closing (send_next c.endpoint).endpoint)
        (Ends-send_next c.endpoint (rw (append-nil net) at e))

  info_serve-Ends :
      (seen : List Bytes) (closing : Bool) (t : Turn) (c : ClientInfo)
      → InfoEnds seen [] c
      → RoundEnds seen (Info.serve closing t c)
  info_serve-Ends seen closing reads_channel c e = info_take-Ends seen c c.incoming refl e
  info_serve-Ends seen closing timer_fires c e = info_tick-Ends seen c e
  info_serve-Ends seen closing falls_through c e = info_idle-Ends seen closing c e

  -- A round of the handler of the server's end.
  pub info_handle-Ends :
      (seen : List Bytes) (closing : Bool) (t : Turn) (c : ClientInfo)
      → InfoEnds seen [] c
      → RoundEnds seen (handle_client closing t c)
  unfolding handle_client
  info_handle-Ends seen closing t c e = elim (Bool-cases c.running) [
    | inl on ↦ elim (Bool-cases (close_ready c.endpoint)) [
      | inl ready ↦ simp (on, ready, append-nil) (rw (append-nil net) at e)
      | inr busy ↦ simp (on, busy) (info_serve-Ends seen closing t c e)
    ]
    | inr off ↦ simp (off, append-nil) (rw (append-nil net) at e)
  ]
