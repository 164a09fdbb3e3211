-- ===== src/Lsp/Link/Stale.antt =====
-- A data message that is read again after its payload was handed on, in the client of
-- project-2/src/example.com/lsp/client_impl.go.
use dsystem_homework.Base.{
  ℕ, zero, suc, ◌<◌, ◌≡◌, refl, sym, subst, inl, inr, ℤ, pos, ltb_ℤ, int_beq, int_eq, false, [],
  ◌∷◌, length, lookup, some, arith, Bool-cases, Option-cases, is_empty, Dict, lookup-delete,
}
use dsystem_homework.Lsp.Message.{Bytes, Message, msg_data}
use dsystem_homework.Lsp.Endpoint.{
  Endpoint, Inbox, drain, collect, on_data, forget, send_next, close_ready,
}
use dsystem_homework.Lsp.Client
use dsystem_homework.Lsp.Client.{Client}
use dsystem_homework.Lsp.Flow.Sender.{send_next_cases}
use dsystem_homework.Lsp.Flow.Receiver.{save-keeps, save_self}
use dsystem_homework.Lsp.Kept.{Kept}
use dsystem_homework.Lsp.Link.{Link, Reach}
use dsystem_homework.Lsp.Link.Kept.{Reach-Both}

-- The buffer holds a payload under a number below the one that is awaited.
abbrev Stale : ℕ → ℕ → Dict ℤ Bytes → Type 0
Stale k rsq rbuffer = (k < rsq) × (payload : Bytes) × (lookup (pos k) rbuffer ≡ some payload)

drain-Stale :
    (fuel k : ℕ) (b : Inbox)
    → Stale k b.rsq b.rbuffer
    → let b' = drain fuel b in Stale k b'.rsq b'.rbuffer
unfolding drain
drain-Stale zero k b s = s
drain-Stale (suc fuel) k b (below, payload, e) =
    elim (Option-cases (lookup (pos b.rsq) b.rbuffer)) [
      | inl stop ↦ rw (stop, drain) (below, payload, e)
      | inr (first, more) ↦
          rw (more, drain)
            (drain-Stale fuel k _
              (omega arith, payload, ground (arith, lookup-delete (pos b.rsq) (pos k) b.rbuffer)))
    ]

collect-Stale :
    (k : ℕ) (sq : ℤ) (rsq : ℕ) (rbuffer : Dict ℤ Bytes)
    → Stale k rsq rbuffer
    → let b = collect sq rsq rbuffer in Stale k b.rsq b.rbuffer
unfolding collect
collect-Stale k sq rsq rbuffer s = elim (Bool-cases (int_beq sq (pos rsq))) [
  | inl hit ↦ rw hit (drain-Stale (length rbuffer) k _ s)
  | inr miss ↦ rw miss s
]

abbrev HasStale : ℕ → Endpoint → Type 0
HasStale k c = Stale k c.rsq c.rbuffer

on_data-Stale :
    (k : ℕ) (m : Message) (c : Endpoint) → HasStale k c → HasStale k (on_data m c).endpoint
unfolding on_data
on_data-Stale k m c (below, payload, e) =
    elim (Bool-cases (ltb_ℤ (pos (length m.payload)) m.size)) [
      | inl short ↦ rw short (below, payload, e)
      | inr whole ↦ rw whole (
          collect-Stale k m.seq_num c.rsq _
            (below, payload, save-keeps m.seq_num (pos k) m.payload c.rbuffer e))
    ]

forget-Stale : (k : ℕ) (sq : ℤ) (c : Endpoint) → HasStale k c → HasStale k (forget sq c)
unfolding forget
forget-Stale k sq c s = elim (Option-cases (lookup sq c.tbuffer)) [
  | inl gone ↦ rw (gone, forget) s
  | inr (v, held) ↦ rw (held, forget) s
]

send_next-Stale : (k : ℕ) (c : Endpoint) → HasStale k c → HasStale k (send_next c).endpoint
send_next-Stale k c s = elim (send_next_cases c) [
  | inl same ↦ rw same s
  | inr (m, rest, _, _, sends) ↦ rw sends s
]

Stale-Kept : (k : ℕ) → Kept (HasStale k)
Stale-Kept k = record {
  by_data = on_data-Stale k;
  by_ack = forget-Stale k;
  by_send = send_next-Stale k;
  by_write = λ m c s. s;
  by_rest = λ c id epoch_count status s. s;
}

not_empty :
    (k : ℤ) (rbuffer : Dict ℤ Bytes) (payload : Bytes)
    → lookup k rbuffer ≡ some payload
    → is_empty rbuffer ≡ false
unfolding lookup
not_empty k [] payload e = cc
not_empty k (entry ∷ rest) payload e = refl

not_ready : (k : ℕ) (c : Endpoint) → HasStale k c → close_ready c ≡ false
not_ready k c (below, payload, e) =
    let full : is_empty c.rbuffer ≡ false = not_empty (pos k) c.rbuffer payload e in ground arith

-- Reading a whole data message whose number is below the awaited one leaves it in the buffer.
repeated-Stale :
    (k : ℕ) (m : Message) (c : Endpoint)
    → m.seq_num ≡ pos k
    → ltb_ℤ (pos (length m.payload)) m.size ≡ false
    → k < c.rsq
    → HasStale k (on_data m c).endpoint
unfolding on_data
repeated-Stale k m c number whole below =
    let (payload, e) = save_self m.seq_num (pos k) m.payload c.rbuffer number in
    rw whole (collect-Stale k m.seq_num c.rsq _ (below, payload, e))

anything : Kept (λ _. Unit {0})
anything = record {
  by_data = λ m c h. tt;
  by_ack = λ sq c h. tt;
  by_send = λ c h. tt;
  by_write = λ m c h. tt;
  by_rest = λ c id epoch_count status h. tt;
}

-- Once the client has read a whole data message whose number is below the awaited one, as it does
-- with each repeated message that was handed on before, its handler never finds the connection
-- ready to close again, whatever happens on the connection afterwards.
pub repeated_blocks_close :
    (l m : Link) (x : Message) (k : ℕ)
    → x.type ≡ msg_data
    → x.seq_num ≡ pos k
    → ltb_ℤ (pos (length x.payload)) x.size ≡ false
    → k < l.client.rsq
    → Reach (record l { client = (Client.receive x l.client).0 }) m
    → close_ready m.client.endpoint ≡ false
unfolding Client.receive
repeated_blocks_close l m x k is_data number whole below r =
    not_ready k m.client.endpoint
      (Reach-Both (Stale-Kept k) anything r
        (record { client_end = begun; info_end = tt })).client_end
  where
    woken : Client
    woken = record (l.client) { endpoint = record (l.client.endpoint) { epoch_count = 0 } }

    begun : HasStale k (Client.receive x l.client).0.endpoint
    begun =
        subst (λ t. HasStale k (Client.dispatch t x woken).0.endpoint) (sym is_data)
          (repeated-Stale k x woken.endpoint number whole below)
