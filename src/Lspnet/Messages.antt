-- ===== src/Lspnet/Messages.antt =====
-- project-2/src/example.com/lsp/io.go: messages as packets of lspnet.
pub mod Transfer
use dsystem_homework.Base.{ℕ, Bool, true, false, List, Option, none, some, ◌>>=◌, if◌then◌else◌}
use dsystem_homework.Lsp.Message.{Bytes, Message}
use dsystem_homework.Lspnet.Staff.{Staff}
use dsystem_homework.Lspnet.Conn.{
  Json, Arrival, packet, fails, read, Rolls, write, Returned, returns, returns_error, write_returns,
  write_to_udp,
}

pub data Incoming : Type 0 where
  got : Message → Incoming
  read_error : Incoming

-- What `ReadMessage` makes of what the read returns.
unfoldable pub parse : Json → Arrival → Incoming
parse json (packet b) =
    let (message, ok) = json.unmarshal b in if ok then got message else read_error
parse json fails = read_error

-- `ReadMessage`, or none while it waits.
unfoldable pub read_message :
    Json → ℕ → Staff → List (Arrival × ℕ) → Option (Incoming × List (Arrival × ℕ))
read_message json c s arrivals = do
  (arrival, rest) ← read c s arrivals
  some (parse json arrival, rest)

abbrev is_error : Returned → Bool
is_error (returns n) = false
is_error returns_error = true

-- `Write` or `WriteToUDP` of the bytes of a message.
write_either : {A : Type 0} → Option A → Bytes → Option Bytes → Returned → Returned
write_either none b sent result = write_returns {A = ℕ} none b sent result
write_either (some a) b sent result = write_to_udp (some a) b sent result

-- `WriteMessage`, given what package net returns for the write: the bytes that it sends, and whether it
-- returns an error.
unfoldable pub write_message :
    {A : Type 0} → Json → ℕ → Option A → Rolls → Staff → Message → Returned → Option Bytes × Bool
unfolding write_either
write_message json c addr rolls s message result =
    let b = json.marshal message in
    let sent = write json c rolls s b in (sent, is_error (write_either addr b sent result))
