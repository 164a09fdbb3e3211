-- ===== src/Lsp/Flow/Acts.antt =====
-- What the handlers' acts on one end leave true: `forget`, `on_data` and `send_next` of
-- Lsp/Endpoint.
use dsystem_homework.Base.{
  ℕ, ◌≡◌, sym, ◌∙◌, subst, inl, inr, ℤ, pos, ltb_ℤ, int_eq, List, [], ◌∷◌, ◌++◌, length,
  length-append, take-append_left, get_elem?-append_left, append-nil, All, All-mono, All-append,
  All-delete, Dict, lookup, delete, arith, Bool-cases, Option-cases,
}
use dsystem_homework.Lsp.Message.{Bytes, Message, msg_data, msg_ack}
use dsystem_homework.Lsp.Endpoint.{Endpoint, Outcome, transmit, send_next, forget, on_data}
use dsystem_homework.Lsp.Flow.{Gets, Drained, Travels, Sends}
use dsystem_homework.Lsp.Flow.Receiver.{on_data-Gets, on_data-Got, on_data-Acks}
use dsystem_homework.Lsp.Flow.Sender.{
  Sends-transmit, Settled-transmit, Settled-forget, send_next_cases, Carries-numbered,
}
use dsystem_homework.Lsp.Flow.Ends.{View, view, Ends, Ends-skip, Travels-Got, Travels-append}

-- A data message changes the receiving half only.
on_data-view :
    (m : Message) (c : Endpoint)
    → let o = on_data m c in
      view o.endpoint ≡ record (view c) { rsq = o.endpoint.rsq; rbuffer = o.endpoint.rbuffer }
unfolding on_data
on_data-view m c = elim (Bool-cases (ltb_ℤ (pos (length m.payload)) m.size)) [
  | inl short ↦ rw short
  | inr whole ↦ rw whole
]

Gets-append :
    (sent more taken : List Bytes) (rsq : ℕ) (rbuffer : Dict ℤ Bytes)
    → Gets sent taken rsq rbuffer
    → Gets (sent ++ more) taken rsq rbuffer
Gets-append sent more taken rsq rbuffer g = record {
  counted = g.counted;
  within = omega (arith, g.within, length-append sent more);
  in_order = g.in_order ∙ sym (take-append_left (length taken) sent more g.within);
  stored = λ k q e. get_elem?-append_left sent more k (g.stored k q e);
}

module _ {Y : View} {written taken : List Bytes} {net queue : List Message}
    {written' taken' : List Bytes} {net' : List Message} where
  forgotten :
      (c : Endpoint) (m : Message) (rest : List Message)
      → m.type ≡ msg_ack
      → Ends (view c) Y written taken net queue written' taken' net' (m ∷ rest)
      → Ends
          (view (record c { tbuffer = delete m.seq_num c.tbuffer }))
          Y
          written
          taken
          net
          queue
          written'
          taken'
          net'
          rest
  forgotten c m rest is_ack e = record {
    sent = e.sent;
    sent' = e.sent';
    out = record {
      sends = record {
        numbered = s.numbered;
        all_written = s.all_written;
        queued = s.queued;
        held = All-delete _ m.seq_num c.tbuffer s.held;
      };
      gets = e.out.gets;
      drained = e.out.drained;
      settled =
          Settled-forget e.sent m.seq_num c.tbuffer Y.rsq Y.rbuffer (e.back.in_queue.0.1 is_ack)
            e.out.settled;
      on_net = e.out.on_net;
      in_queue = e.out.in_queue;
    };
    back = record {
      sends = e.back.sends;
      gets = e.back.gets;
      drained = e.back.drained;
      settled = e.back.settled;
      on_net = e.back.on_net;
      in_queue = e.back.in_queue.1;
    };
  }
    where
      s : Sends written e.sent c.tsq c.tmsg c.tbuffer
      s = e.out.sends

  -- An acknowledgement is read.
  pub Ends-forget :
      (c : Endpoint) (m : Message) (rest : List Message)
      → m.type ≡ msg_ack
      → Ends (view c) Y written taken net queue written' taken' net' (m ∷ rest)
      → Ends (view (forget m.seq_num c)) Y written taken net queue written' taken' net' rest
  unfolding forget
  Ends-forget c m rest is_ack e = elim (Option-cases (lookup m.seq_num c.tbuffer)) [
    | inl gone ↦ rw (gone, forget) (Ends-skip m rest e)
    | inr (v, held) ↦ rw (held, forget) (forgotten c m rest is_ack e)
  ]

  data_read :
      (c : Endpoint) (m : Message) (rest : List Message)
      → m.type ≡ msg_data
      → Ends (view c) Y written taken net queue written' taken' net' (m ∷ rest)
      → let o = on_data m c in
        Ends
          (record (view c) { rsq = o.endpoint.rsq; rbuffer = o.endpoint.rbuffer })
          Y
          written
          taken
          (net ++ o.sent)
          queue
          written'
          (taken' ++ o.delivered)
          net'
          rest
  data_read c m rest is_data e = record {
    sent = e.sent;
    sent' = e.sent';
    out = record {
      sends = e.out.sends;
      gets = e.out.gets;
      drained = e.out.drained;
      settled = e.out.settled;
      on_net =
          All-append _ net o.sent (more net e.out.on_net)
            (All-mono _ _ o.sent (λ a t. ((λ d. cc (sym d ∙ t.0)), t.1)) (on_data-Acks m c));
      in_queue = more queue e.out.in_queue;
    };
    back = record {
      sends = e.back.sends;
      gets = g.0;
      drained = g.1;
      settled = λ k below gone. on_data-Got m c k (e.back.settled k below gone);
      on_net = e.back.on_net;
      in_queue = e.back.in_queue.1;
    };
  }
    where
      o : Outcome
      o = on_data m c

      g :
          Gets e.sent' (taken' ++ o.delivered) o.endpoint.rsq o.endpoint.rbuffer
          × Drained o.endpoint.rsq o.endpoint.rbuffer
      g = on_data-Gets e.sent' taken' m c is_data e.back.in_queue.0.0 e.back.gets e.back.drained

      more :
          (ms : List Message)
          → All (Travels e.sent c.rsq c.rbuffer) ms
          → All (Travels e.sent o.endpoint.rsq o.endpoint.rbuffer) ms
      more ms = Travels-Got e.sent c.rsq _ c.rbuffer _ ms (on_data-Got m c)

  -- A data message is read.
  pub Ends-data :
      (c : Endpoint) (m : Message) (rest : List Message)
      → m.type ≡ msg_data
      → Ends (view c) Y written taken net queue written' taken' net' (m ∷ rest)
      → let o = on_data m c in
        Ends
          (view o.endpoint)
          Y
          written
          taken
          (net ++ o.sent)
          queue
          written'
          (taken' ++ o.delivered)
          net'
          rest
  Ends-data c m rest is_data e =
      let o = on_data m c in
      subst
        (λ v.
          Ends v Y written taken (net ++ o.sent) queue written' (taken' ++ o.delivered) net' rest)
        (sym (on_data-view m c)) (data_read c m rest is_data e)

  message_sent :
      (c : Endpoint) (m : Message) (rest : List Message) {queue' : List Message}
      → c.tmsg ≡ m ∷ rest
      → Ends (view c) Y written taken net queue written' taken' net' queue'
      → let o = transmit c (m ∷ rest) in
        Ends (view o.endpoint) Y written taken (net ++ o.sent) queue written' taken' net' queue'
  message_sent c m rest head e = record {
    sent = e.sent ++ m.payload ∷ [];
    sent' = e.sent';
    out = record {
      sends = Sends-transmit _ _ _ m rest _ s;
      gets = Gets-append e.sent (m.payload ∷ []) taken Y.rsq Y.rbuffer e.out.gets;
      drained = e.out.drained;
      settled = Settled-transmit e.sent m.payload c.tsq _ c.tbuffer _ _ s.numbered e.out.settled;
      on_net = All-append _ net _ (Travels-append e.sent _ _ _ net e.out.on_net) (
        (Carries-numbered e.sent c.tsq m s.numbered, λ is_ack. cc (sym is_ack ∙ s.queued.0.0)),
        tt,
      );
      in_queue = Travels-append e.sent _ _ _ queue e.out.in_queue;
    };
    back = record {
      sends = e.back.sends;
      gets = e.back.gets;
      drained = e.back.drained;
      settled = e.back.settled;
      on_net = e.back.on_net;
      in_queue = e.back.in_queue;
    };
  }
    where
      s : Sends written e.sent c.tsq (m ∷ rest) c.tbuffer
      s = subst (λ q. Sends written e.sent c.tsq q c.tbuffer) head e.out.sends

  pub Ends-send_next :
      (c : Endpoint) {queue' : List Message}
      → Ends (view c) Y written taken net queue written' taken' net' queue'
      → let o = send_next c in
        Ends (view o.endpoint) Y written taken (net ++ o.sent) queue written' taken' net' queue'
  Ends-send_next c {queue'} e = elim (send_next_cases c) [
    | inl same ↦ rw same (rw (append-nil net) e)
    | inr (m, rest, head, _, sends) ↦ rw sends (message_sent c m rest head e)
  ]
