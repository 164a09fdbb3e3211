-- ===== src/Lsp/Link/Invariant.antt =====
-- Every step of Lsp/Link keeps both streams of the connection.
use dsystem_homework.Base.{
  ◌≡◌, refl, ℤ, Bool, true, false, List, [], ◌∷◌, ◌++◌, some, append_assoc, append-nil,
  if◌then◌else◌, lookup, int_eq, arith,
}
use dsystem_homework.Lsp.Message.{Bytes}
use dsystem_homework.Lsp.Status.{Params}
use dsystem_homework.Lsp.Endpoint.{Lost}
use dsystem_homework.Lsp.Client
use dsystem_homework.Lsp.Client.{Client, ReadResult, new_client, got, failed}
use dsystem_homework.Lsp.Info.{Addr, ClientInfo, new_info}
use dsystem_homework.Lsp.Server.{begin_closing}
use dsystem_homework.Lsp.Flow.{Gets}
use dsystem_homework.Lsp.Flow.Ends.{view, Ends, Ends-flip, Ends-enqueue, Ends-arrive}
use dsystem_homework.Lsp.Link.{
  Link, start, Step, Reach, client_writes, client_reads, client_fails, client_hears, client_turns,
  client_closes, client_polls, client_unplugged, server_writes, server_passes, server_drops,
  info_hears, info_turns, info_closes, server_closes, here, next,
}
use dsystem_homework.Lsp.Link.ClientTurns.{client_handle-Ends}
use dsystem_homework.Lsp.Link.InfoTurns.{info_handle-Ends}

abbrev pub Inv : Link → Type 0
Inv l =
    Ends (view l.client.endpoint) (view l.info.endpoint) l.written_up l.taken_up l.up
      l.info.incoming l.passed_down (l.read_down ++ l.client.rmsg) l.down l.client.incoming

start-Inv : (p q : Params) (id : ℤ) (addr : Addr) → Inv (start p q id addr)
unfolding start new_client new_info lookup
start-Inv p q id addr = record {
  sent = [];
  sent' = [];
  out = record {
    sends = record {
      numbered = refl;
      all_written = refl;
      queued = tt;
      held = ((λ e. cc, λ e. cc), tt);
    };
    gets = empty;
    drained = refl;
    settled = λ k h _. absurd (omega arith);
    on_net = ((λ e. cc, λ e. cc), tt);
    in_queue = tt;
  };
  back = record {
    sends = record { numbered = refl; all_written = refl; queued = tt; held = tt };
    gets = empty;
    drained = refl;
    settled = λ k h _. absurd (omega arith);
    on_net = ((λ e. cc, λ _ k e. ground arith), tt);
    in_queue = tt;
  };
}
  where
    empty : Gets [] [] 1 []
    empty = record {
      counted = refl;
      within = omega arith;
      in_order = refl;
      stored = λ k payload e. cc;
    }

-- What a `Read` takes.
pub read_data :
    (b : Bool) (c : Client) (xs : List Bytes) (es : List Lost) (payload : Bytes) (c' : Client)
    → (if b
        then Client.or_else (Client.take_data c xs) (Client.take_error c es)
        else Client.or_else (Client.take_error c es) (Client.take_data c xs))
      ≡ some (got payload, c')
    → (rest : List Bytes) × (xs ≡ payload ∷ rest) × (c' ≡ record c { rmsg = rest })
read_data true c [] [] payload c' e = cc
read_data true c [] (x ∷ es) payload c' e = cc
read_data true c (x ∷ xs) es payload c' e = (xs, ground arith, ground arith)
read_data false c [] [] payload c' e = cc
read_data false c (x ∷ xs) [] payload c' e = (xs, ground arith, ground arith)
read_data false c xs (x ∷ es) payload c' e = cc

pub read_error :
    (b : Bool) (c : Client) (xs : List Bytes) (es : List Lost) (x : Lost) (c' : Client)
    → (if b
        then Client.or_else (Client.take_data c xs) (Client.take_error c es)
        else Client.or_else (Client.take_error c es) (Client.take_data c xs))
      ≡ some (failed x, c')
    → (rest : List Lost) × (c' ≡ record c { err = rest })
read_error true c [] [] x c' e = cc
read_error true c [] (y ∷ es) x c' e = (es, ground arith)
read_error true c (y ∷ xs) es x c' e = cc
read_error false c [] [] x c' e = cc
read_error false c (y ∷ xs) [] x c' e = cc
read_error false c xs (y ∷ es) x c' e = (es, ground arith)

-- A change of the client that the streams do not see.
unseen :
    (l : Link) (c : Client)
    → view c.endpoint ≡ view l.client.endpoint
    → c.rmsg ≡ l.client.rmsg
    → c.incoming ≡ l.client.incoming
    → Inv l
    → Inv (record l { client = c })
unseen l c same_view same_rmsg same_incoming inv = rw (same_view, same_rmsg, same_incoming) inv

client_reads-Inv :
    (l : Link) (b : Bool) (payload : Bytes) (c : Client)
    → Client.read b l.client ≡ some (got payload, c)
    → Inv l
    → Inv (record l { client = c; read_down = l.read_down ++ payload ∷ [] })
unfolding Client.read
client_reads-Inv l b payload c e inv =
    let (rest, head, same) = read_data b l.client l.client.rmsg l.client.err payload c e in
    rw (same, append_assoc l.read_down (payload ∷ []) rest) (rw head at inv)

client_fails-Inv :
    (l : Link) (b : Bool) (x : Lost) (c : Client)
    → Client.read b l.client ≡ some (failed x, c)
    → Inv l
    → Inv (record l { client = c })
unfolding Client.read
client_fails-Inv l b x c e inv =
    let (rest, same) = read_error b l.client l.client.rmsg l.client.err x c e in rw same inv

begin_closing_unseen :
    (c : ClientInfo)
    → (view (begin_closing c).endpoint ≡ view c.endpoint)
      × ((begin_closing c).incoming ≡ c.incoming)
begin_closing_unseen c = (ground arith, ground arith)

info_closes-Inv : (l : Link) → Inv l → Inv (record l { info = begin_closing l.info; known = false })
info_closes-Inv l inv =
    let (same_view, same_incoming) = begin_closing_unseen l.info in
    rw (same_view, same_incoming) inv

-- Every step keeps what both streams promise.
pub Step-Inv : {l m : Link} → Step l m → Inv l → Inv m
unfolding Client.write Client.start_close Client.close_round Client.read_failed
Step-Inv (client_writes payload) inv = Ends-enqueue _ (refl, refl) inv
Step-Inv {l} (client_reads b payload c e) inv = client_reads-Inv l b payload c e inv
Step-Inv {l} (client_fails b x c e) inv = client_fails-Inv l b x c e inv
Step-Inv (client_hears m a) inv = Ends-flip (Ends-arrive m a (Ends-flip inv))
Step-Inv {l} (client_turns t) inv =
    client_handle-Ends _ _ _ _ _ _ _ l.read_down t l.client (rw (append-nil l.up) inv)
Step-Inv {l} client_closes inv =
    unseen l (Client.start_close l.client) (ground arith) (ground arith) (ground arith) inv
Step-Inv {l} client_polls inv =
    unseen l (Client.close_round l.client).client (ground arith) (ground arith) (ground arith) inv
Step-Inv {l} client_unplugged inv =
    unseen l (Client.read_failed l.client) (ground arith) (ground arith) (ground arith) inv
Step-Inv (server_writes payload) inv = inv
Step-Inv (server_passes payload rest e on) inv =
    Ends-flip (Ends-enqueue _ (refl, refl) (Ends-flip inv))
Step-Inv (server_drops payload rest e off) inv = inv
Step-Inv (info_hears m a) inv = Ends-arrive m a inv
Step-Inv {l} (info_turns t) inv = Ends-flip (
    info_handle-Ends _ _ _ _ _ _ _ l.taken_up l.closing t l.info
      (rw (append-nil l.down) (Ends-flip inv)))
Step-Inv {l} info_closes inv = info_closes-Inv l inv
Step-Inv server_closes inv = inv

pub Reach-Inv :
    (p q : Params) (id : ℤ) (addr : Addr) {l : Link} → Reach (start p q id addr) l → Inv l
Reach-Inv p q id addr here = start-Inv p q id addr
Reach-Inv p q id addr (next r s) = Step-Inv s (Reach-Inv p q id addr r)
