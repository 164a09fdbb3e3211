-- ===== src/Lsp/Endpoint.antt =====
-- One end of a connection: the fields and the handler code that `client` (client_impl.go) and
-- `clientInfo` (server_impl.go) have in common, in project-2/src/example.com/lsp.
use dsystem_homework.Base.{
  ℕ, zero, suc, ℤ, pos, negsuc, ◌-ℤ◌, ltb_ℤ, int_beq, int_eq, Bool, ◌&&◌, List, [], ◌∷◌, ◌++◌, map,
  none, some, length, is_empty, if◌then◌else◌, nat_beq, Dict, lookup, insert, delete,
}
use dsystem_homework.Lsp.Message.{Bytes, Message, new_data, new_ack}
use dsystem_homework.Lsp.Status.{Status, start_closing, has_status}

-- Counters do not wrap: an `int` has 64 bits, and each sent or received message adds one.
pub record Endpoint : Type 0 where
  pub id : ℤ
  pub tbuffer : Dict ℤ Message
  pub tmsg : List Message
  pub tsq : ℕ
  pub rbuffer : Dict ℤ Bytes
  pub rsq : ℕ
  pub retries : ℕ
  pub windows : ℕ
  pub epoch_count : ℕ  -- the local variable `epochCount` of the handler
  pub status : Status

-- What a pass of the handler hands on: payloads for the application, messages for the network.
pub record Outcome : Type 0 where
  pub endpoint : Endpoint
  pub delivered : List Bytes
  pub sent : List Message

-- The message that `Write` makes; its sequence number is not set yet.
abbrev pub unsent : ℤ → Bytes → Message
unsent conn_id payload = new_data conn_id (negsuc 0) (pos (length payload)) payload

-- A send on the channel `tmsg`.
abbrev pub enqueue : Message → Endpoint → Endpoint
enqueue m c = record c { tmsg = c.tmsg ++ m ∷ [] }

-- The case that the `select` of a handler takes: `incoming`, the timer, or `default`.
pub data Turn : Type 0 where
  reads_channel timer_fires falls_through : Turn

-- The error that a handler reports carries the connection's number.
pub data Lost : Type 0 where
  connection_lost : ℤ → Lost

-- The test at the head of the handler's loop.
abbrev pub close_ready : Endpoint → Bool
close_ready c =
    has_status c.status start_closing && is_empty c.tbuffer && is_empty c.rbuffer && is_empty c.tmsg

unfoldable pub min_un_acked : ℤ → Dict ℤ Message → ℤ
min_un_acked least [] = least
min_un_acked least ((sq, m) ∷ rest) = min_un_acked (if ltb_ℤ sq least then sq else least) rest

-- `c.tsq-minUnAcked < c.windows`
unfoldable pub window_open : Endpoint → Bool
window_open c = ltb_ℤ (pos c.tsq -ℤ min_un_acked (pos c.tsq) c.tbuffer) (pos c.windows)

-- The buffer keeps the first payload that arrives under a number.
unfoldable pub save : ℤ → Bytes → Dict ℤ Bytes → Dict ℤ Bytes
save sq payload rbuffer = elim (lookup sq rbuffer) [
  | none ↦ insert sq payload rbuffer
  | some _ ↦ rbuffer
]

pub record Inbox : Type 0 where
  pub rsq : ℕ
  pub rbuffer : Dict ℤ Bytes
  pub delivered : List Bytes

-- The inner `for` loop. Each round takes a key out of the buffer, so its length is fuel enough.
unfoldable pub drain : ℕ → Inbox → Inbox
drain zero b = b
drain (suc fuel) b = elim (lookup (pos b.rsq) b.rbuffer) [
  | none ↦ b
  | some payload ↦ drain fuel (record {
    rsq = suc b.rsq;
    rbuffer = delete (pos b.rsq) b.rbuffer;
    delivered = b.delivered ++ payload ∷ [];
  })
]

unfoldable pub collect : ℤ → ℕ → Dict ℤ Bytes → Inbox
collect sq rsq rbuffer =
    let b : Inbox = record { rsq = rsq; rbuffer = rbuffer; delivered = [] } in
    if int_beq sq (pos rsq) then drain (length rbuffer) b else b

-- `case MsgData`
unfoldable pub on_data : Message → Endpoint → Outcome
on_data m c =
    let b = collect m.seq_num c.rsq (save m.seq_num m.payload c.rbuffer) in
    if ltb_ℤ (pos (length m.payload)) m.size
    then record { endpoint = c; delivered = []; sent = [] }
    else record {
      endpoint = record c { rsq = b.rsq; rbuffer = b.rbuffer };
      delivered = b.delivered;
      sent = new_ack c.id m.seq_num ∷ [];
    }

-- The part of `case MsgAck` that both handlers have.
unfoldable pub forget : ℤ → Endpoint → Endpoint
forget sq c = elim (lookup sq c.tbuffer) [
  | none ↦ c
  | some _ ↦ record c { tbuffer = delete sq c.tbuffer }
]

abbrev pub no_data_yet : Endpoint → Bool
no_data_yet c = nat_beq c.rsq 1 && is_empty c.rbuffer

abbrev pub pending : Endpoint → List Message
pending c = map (λ (entry : ℤ × Message). entry.1) c.tbuffer

-- The first `select` of the `default` case.
abbrev pub transmit : Endpoint → List Message → Outcome
transmit c [] = record { endpoint = c; delivered = []; sent = [] }
transmit c (m ∷ rest) =
    let m' : Message = record m { seq_num = pos c.tsq } in
    record {
      endpoint = record c {
        tmsg = rest;
        tbuffer = insert (pos c.tsq) m' c.tbuffer;
        tsq = suc c.tsq;
      };
      delivered = [];
      sent = m' ∷ [];
    }

unfoldable pub send_next : Endpoint → Outcome
send_next c =
    if window_open c then transmit c c.tmsg else record { endpoint = c; delivered = []; sent = [] }
