-- ===== src/Echo/Answers.antt =====
-- What the echo client of project-2/src/example.com/crunner/crunner.go prints.
use dsystem_homework.Base.{
  ℕ, suc, ◌≡◌, refl, sym, ap, ◌∙◌, List, [], ◌∷◌, ◌++◌, append_assoc, append-nil, length,
  length-append, get_elem?, some, arith, ℤ,
}
use dsystem_homework.Lsp.Message.{Bytes}
use dsystem_homework.Lsp.Status.{Params}
use dsystem_homework.Lsp.Info.{Addr}
use dsystem_homework.Lsp.Link.{
  Link, Step, Reach, start, client_writes, client_reads, client_fails, client_hears, client_turns,
  client_closes, client_polls, client_unplugged, server_writes, server_passes, server_drops,
  info_hears, info_turns, info_closes, server_closes,
}
use dsystem_homework.Lsp.Link
use dsystem_homework.Lsp.Link.Delivery.{Begins, Begins-trans, delivered_in_order}
use dsystem_homework.Echo.{
  Place, at_prompt, in_read, returned, Echo, EchoStep, background, types, ends_input, gets, loses,
  server_takes, server_echoes, EchoReach, here, next, begin,
}

-- A step adds to what reached the server.
Step-taken_up : {l m : Link} → Step l m → Begins l.taken_up m.taken_up
Step-taken_up {l} (client_writes payload) = ([], sym (append-nil l.taken_up))
Step-taken_up {l} (client_reads prefer payload c e) = ([], sym (append-nil l.taken_up))
Step-taken_up {l} (client_fails prefer x c e) = ([], sym (append-nil l.taken_up))
Step-taken_up {l} (client_hears m a) = ([], sym (append-nil l.taken_up))
Step-taken_up {l} (client_turns t) = ([], sym (append-nil l.taken_up))
Step-taken_up {l} client_closes = ([], sym (append-nil l.taken_up))
Step-taken_up {l} client_polls = ([], sym (append-nil l.taken_up))
Step-taken_up {l} client_unplugged = ([], sym (append-nil l.taken_up))
Step-taken_up {l} (server_writes payload) = ([], sym (append-nil l.taken_up))
Step-taken_up {l} (server_passes payload rest e on) = ([], sym (append-nil l.taken_up))
Step-taken_up {l} (server_drops payload rest e off) = ([], sym (append-nil l.taken_up))
Step-taken_up {l} (info_hears m a) = ([], sym (append-nil l.taken_up))
Step-taken_up {l} (info_turns t) = (_, refl)
Step-taken_up {l} info_closes = ([], sym (append-nil l.taken_up))
Step-taken_up {l} server_closes = ([], sym (append-nil l.taken_up))

-- How many more payloads the client has written than read.
abbrev InTurn : Place → ℕ → ℕ → Type 0
InTurn at_prompt read written = read ≡ written
InTurn in_read read written = suc read ≡ written
InTurn returned read written = Unit

record Inv (l : Link) (e : Echo) : Type 0 where
  pub reached : Reach l e.link
  pub echoed : e.link.written_down ++ e.held ≡ e.read_up
  pub read_prefix : Begins e.read_up e.link.taken_up
  pub in_turn : InTurn e.place (length e.link.read_down) (length e.link.written_up)

-- The element behind a beginning makes it longer.
Begins-next :
    (xs ys : List Bytes) (x : Bytes)
    → Begins xs ys
    → get_elem? ys (length xs) ≡ some x
    → Begins (xs ++ x ∷ []) ys
Begins-next [] [] x (rest, e) at_x = cc
Begins-next [] (y ∷ ys) x (rest, e) at_x = (ys, cc)
Begins-next (y ∷ xs) [] x (rest, e) at_x = cc
Begins-next (z ∷ xs) (y ∷ ys) x (rest, e) at_x =
    let head : y ≡ z = cc in
    let tail : ys ≡ xs ++ rest = cc in
    let (more, split) = Begins-next xs ys x (rest, tail) at_x in (more, cc)

EchoStep-Inv : {l : Link} {e f : Echo} → EchoStep e f → Inv l e → Inv l f
EchoStep-Inv {e} (background {m} step same) inv = record {
  reached = Link.next inv.reached step;
  echoed = ap (λ w. w ++ e.held) same.written_down_same ∙ inv.echoed;
  read_prefix =
      Begins-trans e.read_up e.link.taken_up m.taken_up inv.read_prefix (Step-taken_up step);
  in_turn = rw (same.read_down_same, same.written_up_same) inv.in_turn;
}
EchoStep-Inv {e} (types payload stands) inv =
    let turn : length e.link.read_down ≡ length e.link.written_up = rw stands at inv.in_turn in
    record {
      reached = Link.next inv.reached (client_writes payload);
      echoed = inv.echoed;
      read_prefix = inv.read_prefix;
      in_turn = omega (arith, turn, length-append e.link.written_up (payload ∷ []));
    }
EchoStep-Inv {e} (ends_input stands) inv = record {
  reached = inv.reached;
  echoed = inv.echoed;
  read_prefix = inv.read_prefix;
  in_turn = tt;
}
EchoStep-Inv {e} (gets prefer payload c stands read) inv =
    let turn : suc (length e.link.read_down) ≡ length e.link.written_up =
      rw stands at inv.in_turn in
    record {
      reached = Link.next inv.reached (client_reads prefer payload c read);
      echoed = inv.echoed;
      read_prefix = inv.read_prefix;
      in_turn = omega (arith, turn, length-append e.link.read_down (payload ∷ []));
    }
EchoStep-Inv {e} (loses prefer x c stands read) inv = record {
  reached = Link.next inv.reached (client_fails prefer x c read);
  echoed = inv.echoed;
  read_prefix = inv.read_prefix;
  in_turn = tt;
}
EchoStep-Inv {e} (server_takes payload idle at_next) inv =
    let all : e.link.written_down ++ [] ≡ e.read_up = rw idle at inv.echoed in
    record {
      reached = inv.reached;
      echoed = ap (λ w. w ++ payload ∷ []) (sym (append-nil e.link.written_down) ∙ all);
      read_prefix = Begins-next e.read_up e.link.taken_up payload inv.read_prefix at_next;
      in_turn = inv.in_turn;
    }
EchoStep-Inv {e} (server_echoes payload holds) inv = record {
  reached = Link.next inv.reached (server_writes payload);
  echoed = append-nil (e.link.written_down ++ payload ∷ []) ∙ (rw holds at inv.echoed);
  read_prefix = inv.read_prefix;
  in_turn = inv.in_turn;
}

EchoReach-Inv : {l : Link} {e f : Echo} → EchoReach e f → Inv l e → Inv l f
EchoReach-Inv here inv = inv
EchoReach-Inv (next r step) inv = EchoStep-Inv step (EchoReach-Inv r inv)

-- A beginning of the same length is the whole.
Begins-whole : (xs ys : List Bytes) → Begins xs ys → length xs ≡ length ys → xs ≡ ys
Begins-whole xs ys ([], e) same = sym (e ∙ append-nil xs)
Begins-whole xs ys (r ∷ rest, e) same =
    absurd (omega (arith, same, ap length e, length-append xs (r ∷ rest)))

-- Whatever the network loses, repeats, reorders and cuts short: when the echo client is at its prompt,
-- the payloads that it has printed are those that it was given, in their order.
pub echo_answers :
    (p q : Params) (id : ℤ) (addr : Addr) (e : Echo)
    → EchoReach (begin (start p q id addr)) e
    → e.place ≡ at_prompt
    → e.link.read_down ≡ e.link.written_up
unfolding start
echo_answers p q id addr e r stands =
    let inv =
      EchoReach-Inv r
        (record { reached = Link.here; echoed = refl; read_prefix = ([], refl); in_turn = refl }) in
    let (back, out) = delivered_in_order p q id addr e.link inv.reached in
    let turn : length e.link.read_down ≡ length e.link.written_up = rw stands at inv.in_turn in
    let (more, later) = back in
    let printed : Begins e.link.read_down e.link.written_down =
      (e.link.client.rmsg ++ more, later ∙ append_assoc e.link.read_down e.link.client.rmsg more) in
    let taken : Begins e.link.read_down e.link.taken_up =
      Begins-trans e.link.read_down e.read_up e.link.taken_up
        (Begins-trans e.link.read_down e.link.written_down e.read_up printed
          (e.held, sym inv.echoed))
        inv.read_prefix in
    Begins-whole e.link.read_down e.link.written_up
      (Begins-trans e.link.read_down e.link.taken_up e.link.written_up taken out) turn
