-- ===== src/Lspnet/Staff.antt =====
-- project-2/src/example.com/lspnet: staff.go, with the map of connections of net.go. The percentages
-- are the global variables of staff.go, numbers of 32 bits.
pub mod Bounds
use dsystem_homework.Base.{
  ℕ, ◌-◌, ◌%◌, ◌^◌, Bool, true, false, not, ◌&&◌, List, [], ◌∷◌, Option, none, some, ℤ, pos, negsuc,
  ltb, ltb_ℤ, if◌then◌else◌, Dict, lookup, insert, delete, nat_key,
}

pub record Staff : Type 0 where
  pub client_read_drop : ℕ
  pub client_write_drop : ℕ
  pub server_read_drop : ℕ
  pub server_write_drop : ℕ
  pub msg_shortening : ℕ
  pub msg_lengthening : ℕ
  pub connections : Dict ℕ Bool  -- `connectionMap`: true for the connection of a server

abbrev pub no_drops : Staff
no_drops = record {
  client_read_drop = 0;
  client_write_drop = 0;
  server_read_drop = 0;
  server_write_drop = 0;
  msg_shortening = 0;
  msg_lengthening = 0;
  connections = [];
}

-- The conversion `uint32(p)` of an `int`.
abbrev pub uint32 : ℤ → ℕ
uint32 (pos n) = n % 2 ^ 32
uint32 (negsuc n) = 2 ^ 32 - 1 - n % 2 ^ 32

abbrev pub in_percent : ℤ → Bool
in_percent p = not (ltb_ℤ p (pos 0)) && not (ltb_ℤ (pos 100) p)

-- What a variable holds after its setter.
abbrev pub store : Bool → ℤ → ℕ → ℕ
store guard p old = if guard then uint32 p else old

unfoldable pub set_client_read_drop : ℤ → Staff → Staff
set_client_read_drop p s = record s { client_read_drop = store (in_percent p) p s.client_read_drop }

unfoldable pub set_client_write_drop : ℤ → Staff → Staff
set_client_write_drop p s = record s {
  client_write_drop = store (in_percent p) p s.client_write_drop;
}

unfoldable pub set_server_read_drop : ℤ → Staff → Staff
set_server_read_drop p s = record s { server_read_drop = store (in_percent p) p s.server_read_drop }

unfoldable pub set_server_write_drop : ℤ → Staff → Staff
set_server_write_drop p s = record s {
  server_write_drop = store (in_percent p) p s.server_write_drop;
}

unfoldable pub set_read_drop : ℤ → Staff → Staff
set_read_drop p s = set_server_read_drop p (set_client_read_drop p s)

unfoldable pub set_write_drop : ℤ → Staff → Staff
set_write_drop p s = set_server_write_drop p (set_client_write_drop p s)

-- The guard is `0 <= 0 && p <= 100`.
unfoldable pub set_msg_shortening : ℤ → Staff → Staff
set_msg_shortening p s = record s {
  msg_shortening = store (not (ltb_ℤ (pos 100) p)) p s.msg_shortening;
}

unfoldable pub set_msg_lengthening : ℤ → Staff → Staff
set_msg_lengthening p s = record s {
  msg_lengthening = store (not (ltb_ℤ (pos 100) p)) p s.msg_lengthening;
}

unfoldable pub reset_drop : Staff → Staff
reset_drop s = set_write_drop (pos 0) (set_read_drop (pos 0) s)

-- A connection that is not in the map drops nothing.
drop_of : Option Bool → ℕ → ℕ → ℕ
drop_of none server client = 0
drop_of (some true) server client = server
drop_of (some false) server client = client

unfoldable pub read_drop : ℕ → Staff → ℕ
unfolding drop_of
read_drop c s = drop_of (lookup c s.connections) s.server_read_drop s.client_read_drop

unfoldable pub write_drop : ℕ → Staff → ℕ
unfolding drop_of
write_drop c s = drop_of (lookup c s.connections) s.server_write_drop s.client_write_drop

-- `ListenUDP` and `DialUDP`, given the connection that package net made, or none for its error, and
-- `Close`.
unfoldable pub listen_udp : Option ℕ → Staff → Staff
listen_udp none s = s
listen_udp (some c) s = record s { connections = insert c true s.connections }

unfoldable pub dial_udp : Option ℕ → Staff → Staff
dial_udp none s = s
dial_udp (some c) s = record s { connections = insert c false s.connections }

unfoldable pub close : ℕ → Staff → Staff
close c s = record s { connections = delete c s.connections }

-- What anyone can call.
pub data Call : Type 0 where
  sets_client_read sets_client_write sets_server_read sets_server_write : ℤ → Call
  sets_read sets_write sets_shortening sets_lengthening : ℤ → Call
  resets : Call
  listens dials : Option ℕ → Call
  closes : ℕ → Call

unfoldable pub call : Call → Staff → Staff
call (sets_client_read p) s = set_client_read_drop p s
call (sets_client_write p) s = set_client_write_drop p s
call (sets_server_read p) s = set_server_read_drop p s
call (sets_server_write p) s = set_server_write_drop p s
call (sets_read p) s = set_read_drop p s
call (sets_write p) s = set_write_drop p s
call (sets_shortening p) s = set_msg_shortening p s
call (sets_lengthening p) s = set_msg_lengthening p s
call resets s = reset_drop s
call (listens c) s = listen_udp c s
call (dials c) s = dial_udp c s
call (closes c) s = close c s

unfoldable pub calls : List Call → Staff → Staff
calls [] s = s
calls (c ∷ cs) s = calls cs (call c s)
