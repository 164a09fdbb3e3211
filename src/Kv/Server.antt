-- ===== src/Kv/Server.antt =====
-- project-1/src/example.com/p1/server.go as a whole: `listen`, and for each client its `receiver` and
-- its `sender`, each a goroutine whose rounds are steps, and the rounds of `dispatch`. A client is
-- known by the number of its connection.
pub mod Keeps
pub mod Clients
mod Tests
use dsystem_homework.Base.{
  ℕ, zero, suc, ◌+◌, Bool, true, false, ltb, List, [], ◌∷◌, ◌++◌, map, Option, none, some, length,
  if◌then◌else◌, Dict, lookup, insert, nat_key,
}
use dsystem_homework.Kv.Clist
use dsystem_homework.Kv.Store.{Bytes, Store, create_db}
use dsystem_homework.Kv.Receiver.{Request, comma, newline, Round, receive_one}
use dsystem_homework.Kv.Dispatch.{Client, capacity, dispatch}

-- `input` has arrived and is not read yet, `output` has been written; `ended` says that no more
-- arrives, `receiving` that the receiver has not returned.
pub record Connection : Type 0 where
  pub input : Bytes
  pub ended : Bool
  pub receiving : Bool
  pub channels : Client
  pub output : Bytes

pub record Server : Type 0 where
  pub listening : Bool
  pub clients : List ℕ
  pub connections : Dict ℕ Connection
  pub accepted : ℕ  -- the number of the next connection
  pub kvstore : Store

-- `New` and a `Start` whose `Listen` succeeds.
unfoldable pub start : Server
start = record {
  listening = true;
  clients = Clist.new;
  connections = [];
  accepted = 0;
  kvstore = create_db;
}

abbrev pub new_connection : Connection
new_connection = record {
  input = [];
  ended = false;
  receiving = true;
  channels = record { req = []; res = [] };
  output = [];
}

-- A round of `listen` in which `Accept` gives a connection.
unfoldable pub accept : Server → Server
accept s =
    if s.listening
    then record s {
      clients = Clist.push_back s.accepted s.clients;
      connections = insert s.accepted new_connection s.connections;
      accepted = suc s.accepted;
    }
    else s

-- `Close`, after which `Accept` fails and `listen` returns.
unfoldable pub close : Server → Server
close s = record s { listening = false }

-- `Count`.
unfoldable pub count : Server → ℕ
count s = length s.clients

-- A round of `receiver`, which waits for the rest of a request and for a place on the channel `req`.
unfoldable pub receive : Round → Connection → Connection
receive none c = if c.ended then record c { receiving = false } else c
receive (some (requests, rest)) c =
    let req = c.channels.req ++ requests in
    if ltb capacity (length req)
    then c
    else record c { input = rest; channels = record c.channels { req = req } }

-- A round of `sender`, which waits for an answer.
unfoldable pub send : List Request → Connection → Connection
send [] c = c
send (r ∷ rest) c = record c {
  channels = record c.channels { res = rest };
  output = c.output ++ r.key ++ comma ∷ (r.value ++ newline ∷ []);
}

-- A change of connection `n`; nothing, if there is none.
change_of : (Connection → Connection) → ℕ → Option Connection → Server → Server
change_of change n none s = s
change_of change n (some c) s = record s { connections = insert n (change c) s.connections }

with_connection : ℕ → (Connection → Connection) → Server → Server
unfolding change_of
with_connection n change s = change_of change n (lookup n s.connections) s

-- A receiver that has returned takes its client out of the list.
leave : ℕ → Connection → Server → Server
leave n c s = if c.receiving then s else record s { clients = (Clist.remove n s.clients).1 }

receiver_of : ℕ → Option Connection → Server → Server
unfolding leave
receiver_of n none s = s
receiver_of n (some c) s =
    let after = receive (receive_one c.input) c in
    if c.receiving
    then leave n after (record s { connections = insert n after s.connections })
    else s

-- The channels of the clients in the list.
unfoldable pub channels_of : ℕ → Dict ℕ Connection → Client
channels_of n connections = elim (lookup n connections) [
  | none ↦ record { req = []; res = [] }
  | some c ↦ c.channels
]

put : Client → Option Connection → ℕ → Dict ℕ Connection → Dict ℕ Connection
put channels none n connections = connections
put channels (some c) n connections = insert n (record c { channels = channels }) connections

pub put_all : List ℕ → List Client → Dict ℕ Connection → Dict ℕ Connection
unfolding put
put_all [] channels connections = connections
put_all (n ∷ ns) [] connections = connections
put_all (n ∷ ns) (channels ∷ rest) connections =
    put_all ns rest (put channels (lookup n connections) n connections)

-- A round of `dispatch` over the list of clients.
dispatch_round : Server → Server
unfolding put_all
dispatch_round s =
    let pass = dispatch (map (λ n. channels_of n s.connections) s.clients) s.kvstore in
    record s { connections = put_all s.clients pass.clients s.connections; kvstore = pass.kvstore }

-- What happens next: a call, an arrival, the end of a connection, or a round of a goroutine.
pub data Event : Type 0 where
  accepts closes dispatches : Event
  arrives : ℕ → Bytes → Event
  hangs_up receives sends : ℕ → Event

unfoldable pub step : Event → Server → Server
unfolding with_connection receiver_of dispatch_round
step accepts s = accept s
step closes s = close s
step dispatches s = dispatch_round s
step (arrives n bytes) s = with_connection n (λ c. record c { input = c.input ++ bytes }) s
step (hangs_up n) s = with_connection n (λ c. record c { ended = true }) s
step (receives n) s = receiver_of n (lookup n s.connections) s
step (sends n) s = with_connection n (λ c. send c.channels.res c) s

unfoldable pub run : List Event → Server → Server
run [] s = s
run (e ∷ events) s = run events (step e s)
