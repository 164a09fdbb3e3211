-- ===== src/Lsp/Server/Closed.antt =====
-- What `CloseConn` of project-2/src/example.com/lsp/server_impl.go comes to.
use native.Mathlib.Decide.{dec_lt}
use dsystem_homework.Base.{
  ℕ, ◌<◌, ℤ, pos, int_eq, int_beq_iff, true, false, List, [], none, some, ◌≡◌, ◌≢◌, refl, inl, inr,
  arith, Option-cases,
}
use dsystem_homework.Lsp.Message.{Message, MsgType, msg_connect, msg_data, msg_ack}
use dsystem_homework.Lsp.Status.{Params}
use dsystem_homework.Lsp.Info.{ClientInfo}
use dsystem_homework.Lsp.Server.{
  AddressableMessage, Server, new_server, registered, find_client, pass_on, on_incoming,
  remove_client, on_cls, to_incoming, to_tmsg,
}
use dsystem_homework.Lsp.Server.Methods.{Op, run}
use dsystem_homework.Lsp.Server.Clients.{registered-unregister}
use dsystem_homework.Lsp.Server.Runs.{next_numbers_free}
use dsystem_homework.Lsp.Server.Gone.{Gone, last_close-Gone, run-Gone}

pub pass_on_unknown :
    (put : Message → ClientInfo → ClientInfo) (m : Message) (s : Server)
    → find_client m.conn_id s ≡ none
    → pass_on put m s ≡ s
unfolding pass_on
pass_on_unknown put m s e = rw (e, pass_on) refl

remove_client-registered :
    (id : ℤ) (s : Server) (c : ClientInfo)
    → find_client id s ≡ some c
    → registered id (remove_client id s).clients ≡ false
unfolding remove_client
remove_client-registered id s c e =
    rw (e, remove_client) (ground (arith, registered-unregister id id s.clients, int_beq_iff id id))

find_client-registered :
    (id : ℤ) (s : Server) (c : ClientInfo)
    → find_client id s ≡ some c
    → registered id s.clients ≡ true
unfolding find_client
find_client-registered id s c e = ground arith

-- A number in the table of a reachable server was given.
found_given :
    (p : Params) (ops : List Op) (k : ℕ) (c : ClientInfo)
    → let s = run ops (new_server p) in find_client (pos k) s ≡ some c → k < s.last_conn_id
found_given p ops k c e =
    let s = run ops (new_server p) in
    elim (dec_lt k s.last_conn_id) [
      | yes below ↦ below
      | no above ↦
          absurd
            (cc (find_client-registered (pos k) s c e, next_numbers_free p ops k (omega arith)))
    ]

remove_client-last : (id : ℤ) (s : Server) → (remove_client id s).last_conn_id ≡ s.last_conn_id
unfolding remove_client
remove_client-last id s = elim (Option-cases (find_client id s)) [
  | inl e ↦ rw (e, remove_client) refl
  | inr (c, e) ↦ rw (e, remove_client) refl
]

closed-Gone :
    (p : Params) (ops : List Op) (k : ℕ) (c : ClientInfo)
    → let s = run ops (new_server p) in find_client (pos k) s ≡ some c → Gone k (on_cls (pos k) s)
unfolding on_cls
closed-Gone p ops k c e =
    let s = run ops (new_server p) in
    last_close-Gone (remove_client (pos k) s) (record {
      absent = remove_client-registered (pos k) s c e;
      given = omega (arith, found_given p ops k c e, remove_client-last (pos k) s);
    })

on_incoming_unknown :
    (t : MsgType) (am : AddressableMessage) (s : Server)
    → t ≢ msg_connect
    → find_client am.message.conn_id s ≡ none
    → on_incoming t am s ≡ (s, [])
unfolding on_incoming
on_incoming_unknown msg_connect am s other e = absurd (other refl)
on_incoming_unknown msg_data am s other e = rw (pass_on_unknown to_incoming am.message s e) refl
on_incoming_unknown msg_ack am s other e = rw (pass_on_unknown to_incoming am.message s e) refl

Gone-find_client : (k : ℕ) (s : Server) → Gone k s → find_client (pos k) s ≡ none
unfolding find_client
Gone-find_client k s g = rw g.absent refl

-- On any run of a server: once its handler has taken the call `CloseConn` for a connection in its
-- table, then whatever happens at the server afterwards, it gives no data message and no
-- acknowledgement that arrives with the number of that connection to any handler, and nothing that is
-- written for it, what was written before the call and waits in its queue included.
pub closed_conn_hears_nothing :
    (p : Params) (ops later : List Op) (k : ℕ) (c : ClientInfo) (am : AddressableMessage)
    → find_client (pos k) (run ops (new_server p)) ≡ some c
    → am.message.conn_id ≡ pos k
    → am.message.type ≢ msg_connect
    → let t = run later (on_cls (pos k) (run ops (new_server p))) in
      (on_incoming am.message.type am t ≡ (t, [])) × (pass_on to_tmsg am.message t ≡ t)
closed_conn_hears_nothing p ops later k c am there same other =
    let t = run later (on_cls (pos k) (run ops (new_server p))) in
    let unknown : find_client am.message.conn_id t ≡ none =
      rw same (Gone-find_client k t (run-Gone later _ (closed-Gone p ops k c there))) in
    (
      on_incoming_unknown am.message.type am t other unknown,
      pass_on_unknown to_tmsg am.message t unknown,
    )
