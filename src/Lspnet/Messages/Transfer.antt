-- ===== src/Lspnet/Messages/Transfer.antt =====
-- A message from `WriteMessage` to `ReadMessage` of project-2/src/example.com/lsp/io.go.
use dsystem_homework.Base.{
  ℕ, zero, suc, ◌≤◌, ◌≡◌, refl, ap, true, false, List, [], ◌∷◌, ◌++◌, Option, some, bind_some,
  length, take, All, arith,
}
use dsystem_homework.Lsp.Message.{Bytes, Message}
use dsystem_homework.Lspnet.Staff.{Staff, read_drop, write_drop}
use dsystem_homework.Lspnet.Conn.{
  Json, Arrival, packet, sometimes, read_loop, read, Rolls, wire, write, Returned, buffer_size,
}
use dsystem_homework.Lspnet.Messages.{got, parse, read_message, write_message}

take-all : (n : ℕ) (b : Bytes) → length b ≤ n → take n b ≡ b
take-all zero [] fits = refl
take-all zero (x ∷ b) fits = absurd (omega arith)
take-all (suc n) [] fits = refl
take-all (suc n) (x ∷ b) fits = ap (◌∷◌ x) (take-all n b (omega arith))

read_loop-append :
    (percentage roll : ℕ) (front rest : List (Arrival × ℕ)) (b : Bytes)
    → All (λ a. sometimes percentage a.1 ≡ true) front
    → sometimes percentage roll ≡ false
    → length b ≤ buffer_size
    → read_loop percentage (front ++ ((packet b, roll) ∷ rest)) ≡ some (packet b, rest)
unfolding read_loop
read_loop-append percentage roll [] rest b dropped kept fits =
    rw (kept, take-all buffer_size b fits) refl
read_loop-append percentage roll ((arrival, low) ∷ front) rest b (drop, dropped) kept fits =
    rw drop (read_loop-append percentage roll front rest b dropped kept fits)

wire_same :
    (json : Json) (rolls : Rolls) (s : Staff) (b : Bytes)
    → sometimes s.msg_shortening rolls.shorten ≡ false
    → sometimes s.msg_lengthening rolls.lengthen ≡ false
    → wire json rolls s b ≡ b
unfolding wire
wire_same json rolls s b uncut unstretched = rw (uncut, unstretched) (ground arith)

-- A message that `WriteMessage` neither drops nor shortens nor lengthens, and whose packet fits the
-- buffer and reads back, is what `ReadMessage` returns from its packet, behind any packets and errors
-- that are dropped, unless this one is dropped too; and what comes later is left to be read.
pub read_message-write_message :
    {A : Type 0} (json : Json) (c d : ℕ) (addr : Option A) (rolls : Rolls) (s : Staff) (m : Message)
    (result : Returned) (front rest : List (Arrival × ℕ)) (roll : ℕ)
    → json.unmarshal (json.marshal m) ≡ (m, true)
    → length (json.marshal m) ≤ buffer_size
    → sometimes (write_drop c s) rolls.drop ≡ false
    → sometimes s.msg_shortening rolls.shorten ≡ false
    → sometimes s.msg_lengthening rolls.lengthen ≡ false
    → All (λ a. sometimes (read_drop d s) a.1 ≡ true) front
    → sometimes (read_drop d s) roll ≡ false
    → (b : Bytes) × ((write_message json c addr rolls s m result).0 ≡ some b)
      × (read_message json d s (front ++ ((packet b, roll) ∷ rest)) ≡ some (got m, rest))
unfolding write_message write read_message read parse
read_message-write_message json c d addr rolls s m result front rest roll back fits kept uncut
      unstretched dropped taken =
    (
      json.marshal m,
      rw (kept, wire_same json rolls s (json.marshal m) uncut unstretched) refl,
      bind_some _
          (read_loop-append (read_drop d s) roll front rest (json.marshal m) dropped taken fits)
          (rw back refl),
    )
