-- ===== src/Kv/Receiver/Parses.antt =====
-- The bytes that a client of project-1/src/example.com/p1/server.go writes, and `receiver`.
use dsystem_homework.Base.{
  bytes_beq, ℕ, zero, suc, ◌≤◌, ◌≡◌, refl, ap, ◌∙◌, List, [], ◌∷◌, ◌++◌, map, some, nat_beq, false,
  length, length-append, All, arith, append_assoc,
}
use dsystem_homework.Kv.Store.{Bytes}
use dsystem_homework.Kv.Receiver.{
  Request, comma, newline, get_command, set_command, read_bytes, read_get, read_set, after_command,
  receive_one, receiver,
}

-- What a client can ask, and the bytes that it writes for it.
pub data Ask : Type 0 where
  asks_get : Bytes → Ask
  asks_set : Bytes → Bytes → Ask

unfoldable pub written : Ask → Bytes
written (asks_get key) = get_command ++ (comma ∷ (key ++ newline ∷ []))
written (asks_set key value) = set_command ++ (comma ∷ (key ++ (comma ∷ (value ++ newline ∷ []))))

abbrev pub request_of : Ask → Request
request_of (asks_get key) = record { command = get_command; key = key; value = [] }
request_of (asks_set key value) = record { command = set_command; key = key; value = value }

abbrev pub Without : ℕ → Bytes → Type 0
Without delim = All (λ x. nat_beq x delim ≡ false)

-- The delimiters are not in what they end.
abbrev pub IsClean : Ask → Type 0
IsClean (asks_get key) = Without newline key
IsClean (asks_set key value) = Without comma key × Without newline value

read_bytes-append :
    (delim : ℕ) (xs rest : Bytes)
    → Without delim xs
    → read_bytes delim (xs ++ delim ∷ rest) ≡ some (xs, rest)
unfolding read_bytes
read_bytes-append delim [] rest clean = ground arith
read_bytes-append delim (x ∷ xs) rest (other, clean) =
    rw (other, read_bytes-append delim xs rest clean) refl

receive_one-written :
    (ask : Ask) (rest : Bytes)
    → IsClean ask
    → receive_one (written ask ++ rest) ≡ some (request_of ask ∷ [], rest)
unfolding receive_one written after_command read_get read_set read_bytes bytes_beq
receive_one-written (asks_get key) rest clean =
    rw (append_assoc key (newline ∷ []) rest, read_bytes-append newline key rest clean) refl
receive_one-written (asks_set key value) rest (key_clean, value_clean) =
    ap read_set flat
    ∙ rw
        (
          read_bytes-append comma key (value ++ newline ∷ rest) key_clean,
          read_bytes-append newline value rest value_clean,
        )
        refl
  where
    flat :
        (key ++ (comma ∷ (value ++ newline ∷ []))) ++ rest
        ≡ key ++ (comma ∷ (value ++ newline ∷ rest))
    flat =
        append_assoc key (comma ∷ (value ++ newline ∷ [])) rest
        ∙ ap (λ z. key ++ (comma ∷ z)) (append_assoc value (newline ∷ []) rest)

-- All that a client writes.
unfoldable pub stream : List Ask → Bytes
stream [] = []
stream (ask ∷ asks) = written ask ++ stream asks

some_bytes : (ask : Ask) → 1 ≤ length (written ask)
unfolding written
some_bytes (asks_get key) = omega arith
some_bytes (asks_set key value) = omega arith

receiver_nothing : (fuel : ℕ) → receiver fuel [] ≡ []
unfolding receiver receive_one read_bytes
receiver_nothing zero = refl
receiver_nothing (suc fuel) = refl

receiver-stream :
    (fuel : ℕ) (asks : List Ask)
    → length (stream asks) ≤ fuel
    → All IsClean asks
    → receiver fuel (stream asks) ≡ map request_of asks
unfolding receiver stream
receiver-stream zero [] h clean = refl
receiver-stream (suc fuel) [] h clean = receiver_nothing (suc fuel)
receiver-stream zero (ask ∷ asks) h clean =
    absurd (omega (arith, length-append (written ask) (stream asks), some_bytes ask))
receiver-stream (suc fuel) (ask ∷ asks) h (first, clean) =
    let shorter : length (stream asks) ≤ fuel =
      omega (arith, length-append (written ask) (stream asks), some_bytes ask) in
    rw (receive_one-written ask (stream asks) first, receiver)
      (ap (λ rs. request_of ask ∷ rs) (receiver-stream fuel asks shorter clean))

-- Of the bytes that a client writes for a list of requests, in which no key of a get has a newline,
-- no key of a set a comma and no value a newline, `receiver` makes these requests, in their order,
-- and its fuel, the number of bytes, is enough.
pub receiver_reads :
    (asks : List Ask)
    → All IsClean asks
    → receiver (length (stream asks)) (stream asks) ≡ map request_of asks
receiver_reads asks clean = receiver-stream (length (stream asks)) asks (omega arith) clean
