-- ===== src/Lsp/Flow.antt =====
-- What the two ends of a connection and the messages between them say about one stream: the
-- predicates that the proofs about project-2/src/example.com/lsp share. `sent` has the payloads
-- that got a sequence number, the first of them 1; `taken` those that reached the application.
pub mod Drain
pub mod Receiver
pub mod Sender
pub mod Ends
pub mod Acts
use dsystem_homework.Base.{
  ℕ, suc, ◌≤◌, ◌<◌, ◌≡◌, ◌≢◌, ◌⊎◌, ◌++◌, ℤ, pos, ltb_ℤ, int_eq, true, false, List, map, none, some,
  length, get_elem?, take, All, In, Dict, lookup,
}
use dsystem_homework.Lsp.Message.{Bytes, Message, msg_data, msg_ack}

-- What the receive buffer holds under a number is the payload that was sent under it.
abbrev pub Stored : List Bytes → Dict ℤ Bytes → Type 0
Stored sent rbuffer =
    (k : ℕ) (payload : Bytes)
    → lookup (pos (suc k)) rbuffer ≡ some payload
    → get_elem? sent k ≡ some payload

pub record Gets (sent taken : List Bytes) (rsq : ℕ) (rbuffer : Dict ℤ Bytes) : Type 0 where
  pub counted : rsq ≡ suc (length taken)
  pub within : length taken ≤ length sent
  pub in_order : taken ≡ take (length taken) sent
  pub stored : Stored sent rbuffer

-- Nothing that could be handed to the application stays behind.
abbrev pub Drained : ℕ → Dict ℤ Bytes → Type 0
Drained rsq rbuffer = lookup (pos rsq) rbuffer ≡ none

-- The payload with index `k` has arrived.
abbrev pub Got : ℕ → Dict ℤ Bytes → ℕ → Type 0
Got rsq rbuffer k =
    (suc k < rsq) ⊎ ((payload : Bytes) × (lookup (pos (suc k)) rbuffer ≡ some payload))

-- A data message that the receiver does not drop as cut short has the payload of its number.
abbrev pub Carries : List Bytes → Message → Type 0
Carries sent m =
    m.type ≡ msg_data
    → (k : ℕ) → m.seq_num ≡ pos (suc k)
    → ltb_ℤ (pos (length m.payload)) m.size ≡ false
    → get_elem? sent k ≡ some m.payload

-- What an acknowledgement names has arrived.
abbrev pub Acks : ℕ → Dict ℤ Bytes → Message → Type 0
Acks rsq rbuffer m = m.type ≡ msg_ack → (k : ℕ) → m.seq_num ≡ pos (suc k) → Got rsq rbuffer k

abbrev pub Travels : List Bytes → ℕ → Dict ℤ Bytes → Message → Type 0
Travels sent rsq rbuffer m = Carries sent m × Acks rsq rbuffer m

-- A message of `Write` before it gets its number.
abbrev pub IsUnsent : Message → Type 0
IsUnsent m = (m.type ≡ msg_data) × (m.size ≡ pos (length m.payload))

abbrev pub payloads : List Message → List Bytes
payloads = map (λ (m : Message). m.payload)

pub record Sends (written sent : List Bytes) (tsq : ℕ) (tmsg : List Message)
    (tbuffer : Dict ℤ Message) : Type 0 where
  pub numbered : tsq ≡ suc (length sent)
  pub all_written : written ≡ sent ++ payloads tmsg
  pub queued : All IsUnsent tmsg
  pub held : All (λ (entry : ℤ × Message). Carries sent entry.1 × (entry.1.type ≢ msg_ack)) tbuffer

-- What has left the send buffer has arrived at the other end.
abbrev pub Settled : List Bytes → Dict ℤ Message → ℕ → Dict ℤ Bytes → Type 0
Settled sent tbuffer rsq rbuffer =
    (k : ℕ) → k < length sent → lookup (pos (suc k)) tbuffer ≡ none → Got rsq rbuffer k

-- The network delivers messages in any order, any number of times or never, whole or cut short.
pub data Arrives (net : List Message) : Message → Type 0 where
  whole : {m : Message} → In m net → Arrives net m
  cut :
      {m : Message} (rest : Bytes)
      → In m net
      → ltb_ℤ (pos (length rest)) m.size ≡ true
      → Arrives net (record m { payload = rest })
