-- ===== src/Lsp/Flow/Ends.antt =====
-- Both directions of a connection at once: what each act of one end leaves true. `X` is the end
-- that acts; `net` has all messages that it sent, `queue` those that wait at the other end.
use dsystem_homework.Base.{
  ℕ, sym, ◌∙◌, ℤ, int_eq, List, [], ◌∷◌, ◌++◌, All, All-mono, All-append, All-In, Dict,
}
use dsystem_homework.Lsp.Message.{Bytes, Message}
use dsystem_homework.Lsp.Endpoint.{Endpoint}
use dsystem_homework.Lsp.Flow.{
  Gets, Drained, Got, Travels, IsUnsent, Sends, Settled, Arrives, whole, cut,
}
use dsystem_homework.Lsp.Flow.Sender.{Carries-append, Sends-enqueue}

-- The fields of an end that the streams depend on.
pub record View : Type 0 where
  pub tsq : ℕ
  pub tmsg : List Message
  pub tbuffer : Dict ℤ Message
  pub rsq : ℕ
  pub rbuffer : Dict ℤ Bytes

abbrev pub view : Endpoint → View
view c = record {
  tsq = c.tsq;
  tmsg = c.tmsg;
  tbuffer = c.tbuffer;
  rsq = c.rsq;
  rbuffer = c.rbuffer;
}

-- The stream from `X` to `Y`.
pub record Stream (written sent taken : List Bytes) (X Y : View) (net queue : List Message)
    : Type 0 where
  pub sends : Sends written sent X.tsq X.tmsg X.tbuffer
  pub gets : Gets sent taken Y.rsq Y.rbuffer
  pub drained : Drained Y.rsq Y.rbuffer
  pub settled : Settled sent X.tbuffer Y.rsq Y.rbuffer
  pub on_net : All (Travels sent X.rsq X.rbuffer) net
  pub in_queue : All (Travels sent X.rsq X.rbuffer) queue

pub record Ends (X Y : View) (written taken : List Bytes) (net queue : List Message)
    (written' taken' : List Bytes) (net' queue' : List Message) : Type 0 where
  pub sent : List Bytes
  pub sent' : List Bytes
  pub out : Stream written sent taken X Y net queue
  pub back : Stream written' sent' taken' Y X net' queue'

pub Travels-Got :
    (sent : List Bytes) (rsq rsq' : ℕ) (rbuffer rbuffer' : Dict ℤ Bytes) (ms : List Message)
    → ((k : ℕ) → Got rsq rbuffer k → Got rsq' rbuffer' k)
    → All (Travels sent rsq rbuffer) ms
    → All (Travels sent rsq' rbuffer') ms
Travels-Got sent rsq rsq' rbuffer rbuffer' ms keep =
    All-mono _ _ ms (λ m t. (t.0, λ is_ack k e. keep k (t.1 is_ack k e)))

pub Travels-append :
    (sent more : List Bytes) (rsq : ℕ) (rbuffer : Dict ℤ Bytes) (ms : List Message)
    → All (Travels sent rsq rbuffer) ms
    → All (Travels (sent ++ more) rsq rbuffer) ms
Travels-append sent more rsq rbuffer ms =
    All-mono _ _ ms (λ m t. (Carries-append sent more m t.0, t.1))

Arrives-Travels :
    (sent : List Bytes) (rsq : ℕ) (rbuffer : Dict ℤ Bytes) {net : List Message} {m : Message}
    → Arrives net m
    → All (Travels sent rsq rbuffer) net
    → Travels sent rsq rbuffer m
Arrives-Travels sent rsq rbuffer (whole i) h = All-In _ i h
Arrives-Travels sent rsq rbuffer (cut rest i short) h =
    (λ _ k e long. cc (sym short ∙ long), (All-In _ i h).1)

module _ {Y : View} {written taken : List Bytes} {net queue : List Message}
    {written' taken' : List Bytes} {net' : List Message} where
  pub Ends-flip :
      {X : View} {queue' : List Message}
      → Ends X Y written taken net queue written' taken' net' queue'
      → Ends Y X written' taken' net' queue' written taken net queue
  Ends-flip e = record { sent = e.sent'; sent' = e.sent; out = e.back; back = e.out }

  pub Ends-enqueue :
      {X : View} {queue' : List Message} (m : Message)
      → IsUnsent m
      → Ends X Y written taken net queue written' taken' net' queue'
      → Ends
          (record X { tmsg = X.tmsg ++ m ∷ [] })
          Y
          (written ++ m.payload ∷ [])
          taken
          net
          queue
          written'
          taken'
          net'
          queue'
  Ends-enqueue m u e = record {
    sent = e.sent;
    sent' = e.sent';
    out = record {
      sends = Sends-enqueue _ _ _ _ _ m u e.out.sends;
      gets = e.out.gets;
      drained = e.out.drained;
      settled = e.out.settled;
      on_net = e.out.on_net;
      in_queue = e.out.in_queue;
    };
    back = record {
      sends = e.back.sends;
      gets = e.back.gets;
      drained = e.back.drained;
      settled = e.back.settled;
      on_net = e.back.on_net;
      in_queue = e.back.in_queue;
    };
  }

  -- A message that is read and changes nothing.
  pub Ends-skip :
      {X : View} (m : Message) (rest : List Message)
      → Ends X Y written taken net queue written' taken' net' (m ∷ rest)
      → Ends X Y written taken net queue written' taken' net' rest
  Ends-skip m rest e = record {
    sent = e.sent;
    sent' = e.sent';
    out = e.out;
    back = record {
      sends = e.back.sends;
      gets = e.back.gets;
      drained = e.back.drained;
      settled = e.back.settled;
      on_net = e.back.on_net;
      in_queue = e.back.in_queue.1;
    };
  }

  -- The network brings a copy to the other end.
  pub Ends-arrive :
      {X : View} {queue' : List Message} (m : Message)
      → Arrives net m
      → Ends X Y written taken net queue written' taken' net' queue'
      → Ends X Y written taken net (queue ++ m ∷ []) written' taken' net' queue'
  Ends-arrive m a e = record {
    sent = e.sent;
    sent' = e.sent';
    out = record {
      sends = e.out.sends;
      gets = e.out.gets;
      drained = e.out.drained;
      settled = e.out.settled;
      on_net = e.out.on_net;
      in_queue = All-append _ _ (m ∷ []) e.out.in_queue (Arrives-Travels _ _ _ a e.out.on_net, tt);
    };
    back = e.back;
  }

  pub Ends-emit :
      {X : View} {queue' : List Message} (ms : List Message)
      → ((sent : List Bytes)
          → Sends written sent X.tsq X.tmsg X.tbuffer
          → All (Travels sent X.rsq X.rbuffer) ms)
      → Ends X Y written taken net queue written' taken' net' queue'
      → Ends X Y written taken (net ++ ms) queue written' taken' net' queue'
  Ends-emit ms fine e = record {
    sent = e.sent;
    sent' = e.sent';
    out = record {
      sends = e.out.sends;
      gets = e.out.gets;
      drained = e.out.drained;
      settled = e.out.settled;
      on_net = All-append _ net ms e.out.on_net (fine e.sent e.out.sends);
      in_queue = e.out.in_queue;
    };
    back = e.back;
  }
