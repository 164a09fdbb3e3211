-- ===== src/Lspnet/Tests.antt =====
-- Two writes, of which one is shortened and one lengthened, and a transfer behind a dropped packet.
use dsystem_homework.Base.{
  ℕ, zero, suc, ◌≤◌, ◌≡◌, refl, ℤ, pos, negsuc, Bool, leb, ◌&&◌, true, false, List, [], ◌∷◌, ◌++◌,
  none, some, lookup, nat_key, arith,
}
use dsystem_homework.Lsp.Message.{
  Bytes, MsgType, msg_connect, msg_data, msg_ack, Message, new_connect, new_data,
}
use dsystem_homework.Lsp.Client
use dsystem_homework.Lsp.Client.{Client}
use dsystem_homework.Lsp.Info
use dsystem_homework.Lsp.Info.{ClientInfo}
use dsystem_homework.Lsp.Status.{new_status}
use dsystem_homework.Lsp.Endpoint.{Endpoint, on_data}
use dsystem_homework.Lspnet.Staff.{
  Staff, no_drops, read_drop, write_drop, Call, sets_read, sets_shortening, dials, calls,
}
use dsystem_homework.Lspnet.Staff.Bounds.{drops_bounded}
use dsystem_homework.Lspnet.Conn.{Json, packet, fails, Rolls, write, returns}
use dsystem_homework.Lspnet.Conn.Mangled.{shortened_ignored, lengthened_delivered}
use dsystem_homework.Lspnet.Messages.{got, read_message, write_message}
use dsystem_homework.Lspnet.Messages.Transfer.{read_message-write_message}

-- A codec: the fields of a message as numbers, and then its payload; an `int` is written in digits.
abbrev tag : MsgType → ℕ
tag msg_connect = 0
tag msg_data = 1
tag msg_ack = 2

abbrev type_of : ℕ → MsgType
type_of zero = msg_connect
type_of (suc zero) = msg_data
type_of (suc (suc n)) = msg_ack

abbrev sign : ℤ → ℕ
sign (pos n) = 0
sign (negsuc n) = 1

abbrev size_of : ℤ → ℕ
size_of (pos n) = n
size_of (negsuc n) = n

abbrev int_of : ℕ → ℕ → ℤ
int_of zero n = pos n
int_of (suc k) n = negsuc n

abbrev encode : Message → Bytes
encode m =
    tag m.type
    ∷ sign m.conn_id
    ∷ size_of m.conn_id
    ∷ sign m.seq_num
    ∷ size_of m.seq_num
    ∷ sign m.size
    ∷ size_of m.size
    ∷ m.payload

abbrev decode : Bytes → Message × Bool
decode (t ∷ a ∷ i ∷ b ∷ j ∷ c ∷ k ∷ payload) = (
  record {
    type = type_of t;
    conn_id = int_of a i;
    seq_num = int_of b j;
    size = int_of c k;
    payload = payload;
  },
  true,
)
decode _ = (new_connect, false)

abbrev all_digits : Bytes → Bool
all_digits [] = true
all_digits (d ∷ b) = leb 48 d && leb d 57 && all_digits b

abbrev json : Json
json = record { marshal = encode; unmarshal = decode; is_int = all_digits }

type_of-tag : (t : MsgType) → type_of (tag t) ≡ t
type_of-tag msg_connect = refl
type_of-tag msg_data = refl
type_of-tag msg_ack = refl

int_of-sign : (i : ℤ) → int_of (sign i) (size_of i) ≡ i
int_of-sign (pos n) = refl
int_of-sign (negsuc n) = refl

decode-encode : (m : Message) → decode (encode m) ≡ (m, true)
decode-encode m =
    rw (type_of-tag m.type, int_of-sign m.conn_id, int_of-sign m.seq_num, int_of-sign m.size) refl

abbrev payload : Bytes
payload = 49 ∷ 50 ∷ []

abbrev staff : Staff
staff = record {
  client_read_drop = 50;
  client_write_drop = 0;
  server_read_drop = 0;
  server_write_drop = 0;
  msg_shortening = 50;
  msg_lengthening = 100;
  connections = (0, false) ∷ [];
}

abbrev shortens : Rolls
shortens = record { drop = 0; shorten = 10; lengthen = 99 }

abbrev lengthens : Rolls
lengthens = record { drop = 0; shorten = 60; lengthen = 99 }

abbrev endpoint : Endpoint
endpoint = record {
  id = pos 0;
  tbuffer = [];
  tmsg = [];
  tsq = 1;
  rbuffer = [];
  rsq = 1;
  retries = 0;
  windows = 1;
  epoch_count = 3;
  status = new_status;
}

abbrev some_calls : List Call
some_calls =
    dials (some 0) ∷ sets_read (pos 30) ∷ sets_read (pos 500) ∷ sets_shortening (negsuc 0) ∷ []

drops_bounded_example :
    (read_drop 0 (calls some_calls no_drops) ≤ 100)
    × (write_drop 0 (calls some_calls no_drops) ≤ 100)
drops_bounded_example = drops_bounded some_calls 0

abbrev client : Client
client = record {
  endpoint = endpoint;
  incoming = [];
  rmsg = [];
  err = [];
  signalled = true;
  running = true;
}

abbrev info : ClientInfo
info = record { endpoint = endpoint; addr = "localhost:9000"; incoming = []; running = true }

abbrev data_bytes : Bytes
data_bytes = encode (new_data (pos 0) (pos 1) (pos 2) payload)

shortened_ignored_example :
    (sent : Bytes) × (m : Message) × (write json 0 shortens staff data_bytes ≡ some sent)
    × (json.unmarshal sent ≡ (m, true))
    × (Client.receive m client
        ≡ (record client { endpoint = record (endpoint) { epoch_count = 0 } }, []))
    × (Info.receive m info ≡ (record {
      info = record info { endpoint = record (endpoint) { epoch_count = 0 } };
      sent = [];
      rmsg = [];
      err = [];
      cls = [];
    }))
unfolding write_drop lookup
shortened_ignored_example =
    shortened_ignored json 0 shortens staff client info (pos 0) (pos 1) payload data_bytes
      decode-encode refl (omega arith) refl refl

lengthened_delivered_example :
    (m : Message) × (write json 0 lengthens staff data_bytes ≡ some (json.marshal m))
    × ((on_data m endpoint).delivered ≡ (payload ++ 2 ∷ 3 ∷ 4 ∷ []) ∷ [])
unfolding write_drop lookup
lengthened_delivered_example =
    lengthened_delivered json 0 lengthens staff endpoint (pos 0) payload data_bytes refl refl refl
      refl refl refl

-- The message, and a staff that only drops reads.
abbrev message : Message
message = new_data (pos 0) (pos 1) (pos 2) payload

abbrev drops_reads : Staff
drops_reads = record staff { msg_shortening = 0; msg_lengthening = 0 }

read_message-write_message_example :
    (b : Bytes) × ((write_message {A = ℕ} json 0 none shortens drops_reads message (returns 2)).0
      ≡ some b)
    × (read_message json 0 drops_reads ((fails, 20) ∷ (packet b, 70) ∷ []) ≡ some (got message, []))
unfolding write_drop read_drop lookup
read_message-write_message_example =
    read_message-write_message {A = ℕ} json 0 0 none shortens drops_reads message (returns 2)
      ((fails, 20) ∷ []) [] 70 refl (omega arith) refl refl refl (refl, tt) refl
