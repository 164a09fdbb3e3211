-- ===== src/Lsp/Link/Delivery.antt =====
-- What a connection of Lsp/Link delivers, and what has been delivered when a handler has stopped
-- without an error.
use native.Mathlib.Decide.{dec_lt}
use dsystem_homework.Base.{
  ℕ, zero, suc, ◌<◌, ◌≡◌, refl, sym, ap, ◌∙◌, ◌⊎◌, inl, inr, Bool-cases, ℤ, true, false, List, [],
  ◌∷◌, ◌++◌, length, take, take-length, append_assoc, append-nil, lookup_empty, int_eq, arith,
}
use dsystem_homework.Lsp.Message.{Bytes, Message}
use dsystem_homework.Lsp.Status.{Params}
use dsystem_homework.Lsp.Endpoint.{Turn}
use dsystem_homework.Lsp.Client
use dsystem_homework.Lsp.Client.{Client}
use dsystem_homework.Lsp.Info.{Addr, handle_client}
use dsystem_homework.Lsp.Flow.{payloads}
use dsystem_homework.Lsp.Flow.Ends.{View, Stream}
use dsystem_homework.Lsp.Link.Stops.{close_ready_lem, client_stop, info_stop}
use dsystem_homework.Lsp.Link.{Link, start, Reach}
use dsystem_homework.Lsp.Link.Invariant.{Reach-Inv}
use dsystem_homework.Lsp.Link.Queue.{Reach-Queue}

-- A prefix: the list begins with what was taken.
abbrev pub Begins : List Bytes → List Bytes → Type 0
Begins taken written = (rest : List Bytes) × (written ≡ taken ++ rest)

take-Begins : (n : ℕ) (xs : List Bytes) → Begins (take n xs) xs
take-Begins zero xs = (xs, refl)
take-Begins (suc n) [] = ([], refl)
take-Begins (suc n) (x ∷ xs) = let (rest, e) = take-Begins n xs in (rest, ap (◌∷◌ x) e)

Stream-Begins :
    {written sent taken : List Bytes} {X Y : View} {net queue : List Message}
    → Stream written sent taken X Y net queue
    → Begins taken written
Stream-Begins {written} {sent} {taken} {X} s =
    let (rest, e) = take-Begins (length taken) sent in
    (
      rest ++ payloads X.tmsg,
      s.sends.all_written
          ∙ ap (λ xs. xs ++ payloads X.tmsg) (e ∙ ap (λ xs. xs ++ rest) (sym s.gets.in_order))
          ∙ append_assoc taken rest (payloads X.tmsg),
    )

-- When nothing waits and nothing is unacknowledged, all has been delivered.
Stream-complete :
    {written sent taken : List Bytes} {X Y : View} {net queue : List Message}
    → Stream written sent taken X Y net queue
    → X.tmsg ≡ []
    → X.tbuffer ≡ []
    → taken ≡ written
Stream-complete {written} {sent} {taken} {X} {Y} s no_queue no_buffer =
    s.gets.in_order
    ∙ ap (λ n. take n sent) all_taken
    ∙ take-length sent
    ∙ sym (s.sends.all_written ∙ rw no_queue (append-nil sent))
  where
    gap : length taken < length sent → ⊥
    gap h = elim (s.settled (length taken) h (rw no_buffer (lookup_empty _ [] (omega arith)))) [
      | inl below ↦ omega (arith, s.gets.counted)
      | inr (payload, e) ↦ cc (sym e ∙ rw s.gets.counted at s.drained)
    ]

    all_taken : length taken ≡ length sent
    all_taken = elim (dec_lt (length taken) (length sent)) [
      | yes h ↦ absurd (gap h)
      | no h ↦ omega (arith, s.gets.within)
    ]

pub Begins-trans : (xs ys zs : List Bytes) → Begins xs ys → Begins ys zs → Begins xs zs
Begins-trans xs ys zs (more, e) (rest, f) =
    (more ++ rest, f ∙ ap (λ w. w ++ rest) e ∙ append_assoc xs more rest)

-- In every reachable state of a connection, on a network that loses, repeats, reorders and cuts
-- short: the payloads that the client's application has read or has waiting, in their order, are
-- the beginning of those that the server wrote, each once; and the payloads that reached the
-- server's application are the beginning of those that the client wrote.
pub delivered_in_order :
    (p q : Params) (id : ℤ) (addr : Addr) (l : Link)
    → Reach (start p q id addr) l
    → Begins (l.read_down ++ l.client.rmsg) l.written_down × Begins l.taken_up l.written_up
delivered_in_order p q id addr l r =
    let inv = Reach-Inv p q id addr r in
    let passed : Begins l.passed_down l.written_down =
      (l.dropped ++ l.outgoing, (Reach-Queue p q id addr r).all_written) in
    (
      Begins-trans (l.read_down ++ l.client.rmsg) l.passed_down l.written_down
          (Stream-Begins inv.back) passed,
      Stream-Begins inv.out,
    )

-- If, in a reachable state, a round of the client's running handler ends it without reporting an
-- error, all that the client wrote has reached the server's application.
pub client_stop_delivers :
    (p q : Params) (id : ℤ) (addr : Addr) (l : Link) (t : Turn)
    → Reach (start p q id addr) l
    → l.client.running ≡ true
    → (Client.handle t l.client).0.running ≡ false
    → (Client.handle t l.client).0.err ≡ l.client.err
    → l.taken_up ≡ l.written_up
client_stop_delivers p q id addr l t r on off clean =
    let (no_queue, no_buffer) =
      close_ready_lem l.client.endpoint (client_stop t l.client on off clean) in
    Stream-complete (Reach-Inv p q id addr r).out no_queue no_buffer

-- If, in a reachable state, a round of the running handler of the server's end stops it without
-- reporting an error: what the server wrote is, in its order, what the client has read, what waits for
-- its `Read`, what the server's handler dropped, and what is still in the server's queue of writes;
-- and nothing was dropped if the connection is in the server's table.
pub info_stop_delivers :
    (p q : Params) (id : ℤ) (addr : Addr) (l : Link) (t : Turn)
    → Reach (start p q id addr) l
    → l.info.running ≡ true
    → (handle_client l.closing t l.info).info.running ≡ false
    → (handle_client l.closing t l.info).err ≡ []
    → (l.written_down ≡ (l.read_down ++ l.client.rmsg) ++ (l.dropped ++ l.outgoing))
      × ((l.known ≡ false) ⊎ (l.dropped ≡ []))
info_stop_delivers p q id addr l t r on off clean =
    let (no_queue, no_buffer) =
      close_ready_lem l.info.endpoint (info_stop l.closing t l.info on off clean) in
    let all_read : l.read_down ++ l.client.rmsg ≡ l.passed_down =
      Stream-complete (Reach-Inv p q id addr r).back no_queue no_buffer in
    let queue = Reach-Queue p q id addr r in
    (
      queue.all_written ∙ ap (λ xs. xs ++ (l.dropped ++ l.outgoing)) (sym all_read),
      elim (Bool-cases l.known) [ inl on ↦ inr (queue.none_dropped on) | inr off ↦ inl off ],
    )
