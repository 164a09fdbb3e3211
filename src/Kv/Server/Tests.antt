-- ===== src/Kv/Server/Tests.antt =====
-- A run of the key-value server with two clients.
use dsystem_homework.Base.{◌≡◌, refl, List, [], ◌∷◌, lookup, insert, bytes_beq}
use dsystem_homework.Kv.Clist.{remove}
use dsystem_homework.Kv.Store.{Bytes}
use dsystem_homework.Kv.Receiver.{receive_one, read_bytes}
use dsystem_homework.Kv.Receiver.Parses.{asks_get, asks_set, stream, written}
use dsystem_homework.Kv.Dispatch.{dispatch, collect, offer_all}
use dsystem_homework.Kv.Server.{
  Event, accepts, dispatches, arrives, hangs_up, receives, run, start, count, step, accept, receive,
  receiver_of, leave, with_connection, change_of, dispatch_round, channels_of, put, put_all,
}
use dsystem_homework.Kv.Server.Keeps.{occurrences, receiving_at}
use dsystem_homework.Kv.Server.Clients.{listed_while_receiving}

abbrev k : Bytes
k = 107 ∷ []

abbrev v : Bytes
v = 118 ∷ []

-- One client sets a key and hangs up, another asks for it.
abbrev server_events : List Event
server_events =
    accepts
    ∷ accepts
    ∷ arrives 0 (stream (asks_set k v ∷ []))
    ∷ arrives 1 (stream (asks_get k ∷ []))
    ∷ hangs_up 0
    ∷ receives 0
    ∷ receives 1
    ∷ receives 0
    ∷ dispatches
    ∷ []

listed_while_receiving_example :
    occurrences 0 (run server_events start).clients
    ≡ receiving_at 0 (run server_events start).connections
listed_while_receiving_example = listed_while_receiving server_events 0

one_client_left : count (run server_events start) ≡ 1
unfolding run step accept receiver_of receive receive_one leave with_connection change_of start
    remove stream written count lookup insert read_bytes bytes_beq dispatch_round dispatch collect
    offer_all channels_of put put_all
one_client_left = refl
