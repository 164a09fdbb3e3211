-- ===== src/Lspnet/Conn.antt =====
-- project-2/src/example.com/lspnet/conn.go: reads and writes on a connection. encoding/json is a
-- parameter, as are the random numbers, the arriving packets and the results of package net.
pub mod Mangled
use dsystem_homework.Base.{
  ℕ, zero, suc, ◌/◌, Bool, true, false, ◌||◌, List, [], ◌∷◌, ◌++◌, Option, none, some, ltb,
  if◌then◌else◌, length, take,
}
use dsystem_homework.Lsp.Message.{Bytes, MsgType, msg_connect, msg_data, msg_ack, Message}
use dsystem_homework.Lspnet.Staff.{Staff, read_drop, write_drop}

-- `Marshal` of a message, `Unmarshal` into one, which fills in fields also when it fails, with whether
-- it succeeds, and whether `Unmarshal` into an `int` succeeds.
pub record Json : Type 0 where
  pub marshal : Message → Bytes
  pub unmarshal : Bytes → Message × Bool
  pub is_int : Bytes → Bool

-- `sometimes`, for a number of `rand.Intn(100)`.
abbrev pub sometimes : ℕ → ℕ → Bool
sometimes percentage roll = ltb roll percentage

-- What a read of package net gives: a packet, cut to the buffer, or an error.
pub data Arrival : Type 0 where
  packet : Bytes → Arrival
  fails : Arrival

abbrev pub buffer_size : ℕ
buffer_size = 2000

abbrev received : Arrival → Arrival
received (packet b) = packet (take buffer_size b)
received fails = fails

-- The loop of `Read` and of `ReadFromUDP`, over what arrives, each with its random number: what it
-- returns and what is still to come, or none when it waits for more.
unfoldable pub read_loop : ℕ → List (Arrival × ℕ) → Option (Arrival × List (Arrival × ℕ))
read_loop percentage [] = none
read_loop percentage ((arrival, roll) ∷ rest) =
    let later = read_loop percentage rest in
    if sometimes percentage roll then later else some (received arrival, rest)

unfoldable pub read : ℕ → Staff → List (Arrival × ℕ) → Option (Arrival × List (Arrival × ℕ))
read c s arrivals = read_loop (read_drop c s) arrivals

-- The random numbers of a write.
pub record Rolls : Type 0 where
  pub drop : ℕ
  pub shorten : ℕ
  pub lengthen : ℕ

-- The digit zero: `payload` is 0 when it could not be read.
abbrev pub zero_text : Bytes
zero_text = 48 ∷ []

abbrev pub is_data : MsgType → Bool
is_data msg_connect = false
is_data msg_data = true
is_data msg_ack = false

-- What a write does with what it got from package net: the number of bytes, or an error.
pub data Returned : Type 0 where
  returns : ℕ → Returned
  returns_error : Returned

module _ (json : Json) where
  unfoldable pub shorter : Bytes → Bytes
  shorter payload = if json.is_int payload then take (length payload / 2) payload else zero_text

  unfoldable pub longer : Bytes → Bytes
  longer payload = if json.is_int payload then payload ++ 2 ∷ 3 ∷ 4 ∷ [] else zero_text

  -- The message as `write` changes it.
  unfoldable pub mangle : Bool → Bool → Message → Message
  mangle shorten lengthen msg =
      if shorten
      then record msg { payload = shorter msg.payload }
      else if lengthen
      then record msg { payload = longer msg.payload }
      else msg

  -- The bytes that `write` hands to package net.
  unfoldable pub wire : Rolls → Staff → Bytes → Bytes
  wire rolls s b =
      let msg = (json.unmarshal b).0 in
      let shorten = sometimes s.msg_shortening rolls.shorten in
      let lengthen = sometimes s.msg_lengthening rolls.lengthen in
      if is_data msg.type
      then (if shorten || lengthen then json.marshal (mangle shorten lengthen msg) else b)
      else b

  -- `write` on connection `c`: the bytes that it sends, or none when it drops the packet.
  unfoldable pub write : ℕ → Rolls → Staff → Bytes → Option Bytes
  write c rolls s b = if sometimes (write_drop c s) rolls.drop then none else some (wire rolls s b)

-- What `write` returns: a dropped packet looks sent, and an error of a write without an address is
-- hidden.
unfoldable pub write_returns : {A : Type 0} → Option A → Bytes → Option Bytes → Returned → Returned
write_returns addr b none result = returns (length b)
write_returns none b (some sent) (returns n) = returns n
write_returns none b (some sent) returns_error = returns 0
write_returns (some a) b (some sent) result = result

-- `WriteToUDP`, which takes no nil address.
unfoldable pub write_to_udp : {A : Type 0} → Option A → Bytes → Option Bytes → Returned → Returned
write_to_udp none b sent result = returns_error
write_to_udp (some a) b sent result = write_returns (some a) b sent result
