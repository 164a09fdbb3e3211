-- ===== src/Lspnet/Conn/Mangled.antt =====
-- What a message of which project-2/src/example.com/lspnet/conn.go changed the payload does at an
-- endpoint of lsp.
use dsystem_homework.Base.{
  ℕ, zero, suc, ◌/◌, ◌≤◌, ◌<◌, ◌≡◌, refl, ap, append-nil, true, false, [], ◌∷◌, ◌++◌, some, ltb_ℤ,
  pos, ℤ, length, take, arith, length-append, lookup, insert, int_eq,
}
use dsystem_homework.Lsp.Message.{Bytes, Message, msg_data, new_data}
use dsystem_homework.Lsp.Client
use dsystem_homework.Lsp.Client.{Client}
use dsystem_homework.Lsp.Info
use dsystem_homework.Lsp.Info.{ClientInfo}
use dsystem_homework.Lsp.Endpoint.{Endpoint, on_data, collect, save, drain}
use dsystem_homework.Lspnet.Staff.{Staff, write_drop}
use dsystem_homework.Lspnet.Conn.{Json, sometimes, Rolls, shorter, longer, mangle, wire, write}

length-take_le : (n : ℕ) (b : Bytes) → length (take n b) ≤ n
length-take_le zero b = omega arith
length-take_le (suc n) [] = omega arith
length-take_le (suc n) (x ∷ b) = omega (arith, length-take_le n b)

length-shorter :
    (json : Json) (payload : Bytes)
    → 2 ≤ length payload
    → length (shorter json payload) < length payload
unfolding shorter
length-shorter json payload long = ground (arith, length-take_le (length payload / 2) payload)

-- What the two handlers make of a message whose payload is shorter than its size.
client_skips :
    (m : Message) (c : Client)
    → m.type ≡ msg_data
    → ltb_ℤ (pos (length m.payload)) m.size ≡ true
    → Client.receive m c ≡ (record c { endpoint = record (c.endpoint) { epoch_count = 0 } }, [])
unfolding Client.receive on_data
client_skips m c is_data less =
    let woken : Client = record c { endpoint = record (c.endpoint) { epoch_count = 0 } } in
    rw is_data (rw less (ap (λ rmsg. (record woken { rmsg = rmsg }, [])) (append-nil c.rmsg)))

info_skips :
    (m : Message) (c : ClientInfo)
    → m.type ≡ msg_data
    → ltb_ℤ (pos (length m.payload)) m.size ≡ true
    → Info.receive m c ≡ (record {
      info = record c { endpoint = record (c.endpoint) { epoch_count = 0 } };
      sent = [];
      rmsg = [];
      err = [];
      cls = [];
    })
unfolding Info.receive on_data
info_skips m c is_data less = rw is_data (rw less refl)

-- When `write` shortens a data message of at least two bytes, whose size is that of its payload, and
-- encoding/json reads back what it wrote: the bytes that it sends read as a message that sets the epoch
-- counter of a client or of a server's connection whose handler gets it to 0, changes nothing else
-- there, delivers nothing and sends no acknowledgement.
pub shortened_ignored :
    (json : Json) (c : ℕ) (rolls : Rolls) (s : Staff) (client : Client) (info : ClientInfo)
    (id sq : ℤ) (payload b : Bytes)
    → ((m : Message) → json.unmarshal (json.marshal m) ≡ (m, true))
    → json.unmarshal b ≡ (new_data id sq (pos (length payload)) payload, true)
    → 2 ≤ length payload
    → sometimes (write_drop c s) rolls.drop ≡ false
    → sometimes s.msg_shortening rolls.shorten ≡ true
    → (sent : Bytes) × (m : Message) × (write json c rolls s b ≡ some sent)
      × (json.unmarshal sent ≡ (m, true))
      × (Client.receive m client
          ≡ (record client { endpoint = record (client.endpoint) { epoch_count = 0 } }, []))
      × (Info.receive m info ≡ (record {
        info = record info { endpoint = record (info.endpoint) { epoch_count = 0 } };
        sent = [];
        rmsg = [];
        err = [];
        cls = [];
      }))
unfolding write wire mangle
shortened_ignored json c rolls s client info id sq payload b reads_back read long kept cut =
    let m : Message = new_data id sq (pos (length payload)) (shorter json payload) in
    let less : ltb_ℤ (pos (length (shorter json payload))) (pos (length payload)) ≡ true =
      ground (arith, length-shorter json payload long) in
    (
      json.marshal m,
      m,
      rw (kept, read, cut) refl,
      reads_back m,
      client_skips m client refl less,
      info_skips m info refl less,
    )

collect_one :
    (rsq : ℕ) (sent : Bytes)
    → (collect (pos rsq) rsq (save (pos rsq) sent [])).delivered ≡ sent ∷ []
unfolding collect save drain lookup insert
collect_one rsq sent = ground arith

-- When `write` lengthens a data message with a number as its payload, whose size is that of the
-- payload, an endpoint that waits for this message and has no others gets a message that it delivers
-- with three more bytes than were sent.
pub lengthened_delivered :
    (json : Json) (c : ℕ) (rolls : Rolls) (s : Staff) (e : Endpoint) (id : ℤ) (payload b : Bytes)
    → json.unmarshal b ≡ (new_data id (pos e.rsq) (pos (length payload)) payload, true)
    → json.is_int payload ≡ true
    → sometimes (write_drop c s) rolls.drop ≡ false
    → sometimes s.msg_shortening rolls.shorten ≡ false
    → sometimes s.msg_lengthening rolls.lengthen ≡ true
    → e.rbuffer ≡ []
    → (m : Message) × (write json c rolls s b ≡ some (json.marshal m))
      × ((on_data m e).delivered ≡ (payload ++ 2 ∷ 3 ∷ 4 ∷ []) ∷ [])
unfolding write wire mangle on_data longer
lengthened_delivered json c rolls s e id payload b read number kept uncut added empty =
    let sent = payload ++ 2 ∷ 3 ∷ 4 ∷ [] in
    let enough : ltb_ℤ (pos (length sent)) (pos (length payload)) ≡ false =
      ground (arith, length-append payload (2 ∷ 3 ∷ 4 ∷ [])) in
    (
      new_data id (pos e.rsq) (pos (length payload)) sent,
      rw (kept, read, uncut, added, number) refl,
      rw (enough, empty) (collect_one e.rsq sent),
    )
