-- ===== src/Kv/Receiver.antt =====
-- project-1/src/example.com/p1/server.go, `receiver`: the requests that a client's bytes make. The
-- input is all that the client sends before the connection ends.
pub mod Parses
use dsystem_homework.Base.{
  bytes_beq, ℕ, zero, suc, ◌+◌, ◌≤◌, ◌<◌, ◌≡◌, refl, ap, ◌∙◌, sym, Bool, true, false, List, [], ◌∷◌,
  ◌++◌, map, Option, none, some, ◌>>=◌, nat_beq, length, length-append, if◌then◌else◌, All, arith,
  append_assoc,
}
use dsystem_homework.Kv.Store.{Bytes}

pub record Request : Type 0 where
  pub command : Bytes
  pub key : Bytes
  pub value : Bytes

abbrev pub comma : ℕ
comma = 44

abbrev pub newline : ℕ
newline = 10

abbrev pub get_command : Bytes
get_command = 103 ∷ 101 ∷ 116 ∷ []

abbrev pub set_command : Bytes
set_command = 115 ∷ 101 ∷ 116 ∷ []

abbrev begin_with : ℕ → Option (Bytes × Bytes) → Option (Bytes × Bytes)
begin_with x none = none
begin_with x (some (taken, rest)) = some (x ∷ taken, rest)

-- `ReadBytes`, with the delimiter cut off as the code does; none is its error at the end.
unfoldable pub read_bytes : ℕ → Bytes → Option (Bytes × Bytes)
read_bytes delim [] = none
read_bytes delim (x ∷ xs) =
    let rest = read_bytes delim xs in if nat_beq x delim then some ([], xs) else begin_with x rest

-- What a round hands to `dispatch`, and the input that is left; none ends the loop.
abbrev pub Round : Type 0
Round = Option (List Request × Bytes)

read_get : Bytes → Round
read_get input = do
  (key, rest) ← read_bytes newline input
  some (record { command = get_command; key = key; value = [] } ∷ [], rest)

read_set : Bytes → Round
read_set input = do
  (key, rest) ← read_bytes comma input
  (value, rest') ← read_bytes newline rest
  some (record { command = set_command; key = key; value = value } ∷ [], rest')

after_command : Bytes → Bytes → Round
after_command command rest =
    if bytes_beq command get_command
    then read_get rest
    else if bytes_beq command set_command
    then read_set rest
    else some ([], rest)

unfoldable pub receive_one : Bytes → Round
unfolding read_get read_set after_command
receive_one input = do (command, rest) ← read_bytes comma input; after_command command rest

-- The loop; each round takes a byte at least, so that the length of the input is fuel enough.
unfoldable pub receiver : ℕ → Bytes → List Request
unfolding receive_one
receiver zero input = []
receiver (suc fuel) input = elim (receive_one input) [
  | none ↦ []
  | some (requests, rest) ↦ requests ++ receiver fuel rest
]
