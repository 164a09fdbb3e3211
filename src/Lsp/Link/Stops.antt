-- ===== src/Lsp/Link/Stops.antt =====
-- When a round of a handler of project-2/src/example.com/lsp stops it: the connection is closed, or
-- an error is reported.
use dsystem_homework.Base.{
  ◌≡◌, ◌≢◌, refl, sym, ap, ◌∙◌, ◌+◌, inl, inr, Bool, true, false, List, [], ◌∷◌, ◌++◌, length,
  length-append, arith, Bool-cases, nat_beq,
}
use dsystem_homework.Lsp.Message.{Message, MsgType, msg_connect, msg_data, msg_ack}
use dsystem_homework.Lsp.Endpoint.{
  Endpoint, Lost, Turn, reads_channel, timer_fires, falls_through, close_ready,
}
use dsystem_homework.Lsp.Client
use dsystem_homework.Lsp.Client.{Client}
use dsystem_homework.Lsp.Info
use dsystem_homework.Lsp.Info.{ClientInfo, handle_client}

pub close_ready_lem : (c : Endpoint) → close_ready c ≡ true → (c.tmsg ≡ []) × (c.tbuffer ≡ [])
close_ready_lem c h = (ground arith, ground arith)

append-ne : (xs : List Lost) (x : Lost) → xs ++ x ∷ [] ≢ xs
append-ne xs x e = omega (arith, ap length e, length-append xs (x ∷ []))

receive_running :
    (t : MsgType) (m : Message) (c : Client) → (Client.dispatch t m c).0.running ≡ c.running
unfolding Client.on_ack
receive_running msg_connect m c = refl
receive_running msg_data m c = refl
receive_running msg_ack m c = ground arith

info_receive_running :
    (t : MsgType) (m : Message) (c : ClientInfo) → (Info.dispatch t m c).info.running ≡ c.running
info_receive_running msg_connect m c = refl
info_receive_running msg_data m c = refl
info_receive_running msg_ack m c = refl

client_take_running :
    (c : Client) (ms : List Message) → (Client.take_incoming c ms).0.running ≡ c.running
unfolding Client.receive
client_take_running c [] = refl
client_take_running c (m ∷ rest) = receive_running m.type m _

-- A case of the `select` stops the handler only by reporting an error.
client_serve_stop :
    (t : Turn) (c : Client)
    → c.running ≡ true
    → (Client.serve t c).0.running ≡ false
    → (Client.serve t c).0.err ≢ c.err
unfolding Client.tick Client.idle
client_serve_stop reads_channel c on off = cc (on, off, client_take_running c c.incoming)
client_serve_stop timer_fires c on off = elim (Bool-cases (nat_beq (c.epoch_count + 1) c.retries)) [
  | inl over ↦ rw over (append-ne c.err _)
  | inr more ↦ cc (sym on ∙ rw more at off)
]
client_serve_stop falls_through c on off = cc (on, off)

client_handle_busy :
    (t : Turn) (c : Client)
    → c.running ≡ true
    → close_ready c.endpoint ≡ false
    → Client.handle t c ≡ Client.serve t c
unfolding Client.handle
client_handle_busy t c on busy = simp (on, busy)

-- A round of the client's handler that ends it without an error found the connection closed.
pub client_stop :
    (t : Turn) (c : Client)
    → c.running ≡ true
    → (Client.handle t c).0.running ≡ false
    → (Client.handle t c).0.err ≡ c.err
    → close_ready c.endpoint ≡ true
client_stop t c on off clean = elim (Bool-cases (close_ready c.endpoint)) [
  | inl ready ↦ ready
  | inr busy ↦
      let e = client_handle_busy t c on busy in
      absurd (client_serve_stop t c on (rw e at off) (rw e at clean))
]

info_take_running :
    (c : ClientInfo) (ms : List Message) → (Info.take_incoming c ms).info.running ≡ c.running
unfolding Info.receive
info_take_running c [] = refl
info_take_running c (m ∷ rest) = info_receive_running m.type m _

info_serve_stop :
    (closing : Bool) (t : Turn) (c : ClientInfo)
    → c.running ≡ true
    → (Info.serve closing t c).info.running ≡ false
    → (Info.serve closing t c).err ≢ []
unfolding Info.tick Info.idle
info_serve_stop closing reads_channel c on off = cc (on, off, info_take_running c c.incoming)
info_serve_stop closing timer_fires c on off =
    elim (Bool-cases (nat_beq (c.epoch_count + 1) c.retries)) [
      | inl over ↦ rw over (λ e. cc)
      | inr more ↦ cc (sym on ∙ rw more at off)
    ]
info_serve_stop closing falls_through c on off = cc (on, off)

info_handle_busy :
    (closing : Bool) (t : Turn) (c : ClientInfo)
    → c.running ≡ true
    → close_ready c.endpoint ≡ false
    → handle_client closing t c ≡ Info.serve closing t c
unfolding handle_client
info_handle_busy closing t c on busy = simp (on, busy)

pub info_stop :
    (closing : Bool) (t : Turn) (c : ClientInfo)
    → c.running ≡ true
    → (handle_client closing t c).info.running ≡ false
    → (handle_client closing t c).err ≡ []
    → close_ready c.endpoint ≡ true
info_stop closing t c on off clean = elim (Bool-cases (close_ready c.endpoint)) [
  | inl ready ↦ ready
  | inr busy ↦
      let e = info_handle_busy closing t c on busy in
      absurd (info_serve_stop closing t c on (rw e at off) (rw e at clean))
]
