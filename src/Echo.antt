-- ===== src/Echo.antt =====
-- project-2/src/example.com/crunner/crunner.go and srunner/srunner.go: an echo client and an echo
-- server, the applications at the two ends of a connection of Lsp/Link. `Write` returns no error on any
-- path, so the branches for one are not taken. The flags and what is printed in between are left out.
pub mod Answers
mod Tests
use dsystem_homework.Base.{ℕ, suc, ◌≡◌, Bool, List, [], ◌∷◌, ◌++◌, length, get_elem?, Option, some}
use dsystem_homework.Lsp.Message.{Bytes}
use dsystem_homework.Lsp.Client
use dsystem_homework.Lsp.Client.{Client, got, failed}
use dsystem_homework.Lsp.Endpoint.{Lost, unsent}
use dsystem_homework.Lsp.Server.{to_tmsg}
use dsystem_homework.Lsp.Link.{Link, Step}

-- Where `runClient` stands: at its prompt, in `Read`, or returned.
pub data Place : Type 0 where
  at_prompt in_read returned : Place

-- `read_up` has what `runServer` has read, `held` the payload that it has not written back yet.
pub record Echo : Type 0 where
  pub link : Link
  pub place : Place
  pub read_up : List Bytes
  pub held : List Bytes

-- `runClient` writes a token; it prints what `Read` gives.
abbrev pub type_token : Bytes → Echo → Echo
type_token payload e = record e {
  link = record e.link {
    client = Client.write payload e.link.client;
    written_up = e.link.written_up ++ payload ∷ [];
  };
  place = in_read;
}

abbrev pub print_payload : Bytes → Client → Echo → Echo
print_payload payload c e = record e {
  link = record e.link { client = c; read_down = e.link.read_down ++ payload ∷ [] };
  place = at_prompt;
}

-- `runServer` reads a payload; it writes what it has read.
abbrev pub take_payload : Bytes → Echo → Echo
take_payload payload e = record e { read_up = e.read_up ++ payload ∷ []; held = payload ∷ [] }

abbrev pub echo_payload : Bytes → Echo → Echo
echo_payload payload e = record e {
  link = record e.link {
    outgoing = e.link.outgoing ++ payload ∷ [];
    written_down = e.link.written_down ++ payload ∷ [];
  };
  held = [];
}

-- A step that is none of the two applications'.
pub record IsBackground (l m : Link) : Type 0 where
  pub written_up_same : m.written_up ≡ l.written_up
  pub written_down_same : m.written_down ≡ l.written_down
  pub read_down_same : m.read_down ≡ l.read_down

pub data EchoStep (e : Echo) : Echo → Type 0 where
  background :
      {m : Link} → Step e.link m → IsBackground e.link m → EchoStep e (record e { link = m })
  -- `Scan` gives a token or an error.
  types : (payload : Bytes) → e.place ≡ at_prompt → EchoStep e (type_token payload e)
  ends_input : e.place ≡ at_prompt → EchoStep e (record e { place = returned })
  -- `Read` gives a payload or an error.
  gets :
      (prefer_data : Bool) (payload : Bytes) (c : Client)
      → e.place ≡ in_read
      → Client.read prefer_data e.link.client ≡ some (got payload, c)
      → EchoStep e (print_payload payload c e)
  loses :
      (prefer_data : Bool) (x : Lost) (c : Client)
      → e.place ≡ in_read
      → Client.read prefer_data e.link.client ≡ some (failed x, c)
      → EchoStep e (record e { link = record e.link { client = c }; place = returned })
  -- `runServer` reads the next payload, and writes it back.
  server_takes :
      (payload : Bytes)
      → e.held ≡ []
      → get_elem? e.link.taken_up (length e.read_up) ≡ some payload
      → EchoStep e (take_payload payload e)
  server_echoes : (payload : Bytes) → e.held ≡ payload ∷ [] → EchoStep e (echo_payload payload e)

pub data EchoReach (e : Echo) : Echo → Type 0 where
  here : EchoReach e e
  next : {f g : Echo} → EchoReach e f → EchoStep f g → EchoReach e g

abbrev pub begin : Link → Echo
begin l = record { link = l; place = at_prompt; read_up = []; held = [] }
