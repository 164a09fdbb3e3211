-- ===== src/Kv/Dispatch.antt =====
-- project-1/src/example.com/p1/server.go, `dispatch`, and the `client` of client.go: a round takes at
-- most one request of each client and sends the answers to all of them.
pub mod Answers
use dsystem_homework.Base.{
  bytes_beq, bytes_beq_iff, bytes_key, ℕ, zero, suc, ◌+◌, ◌-◌, ◌≤◌, ◌<◌, ◌≡◌, refl, sym, ap, ◌∙◌,
  inl, inr, Bool, true, false, ltb, List, [], ◌∷◌, ◌++◌, map, none, some, length, take,
  if◌then◌else◌, All, In, here, there, Dict, lookup, insert, lookup-insert, length-append,
  append_assoc, append-nil, arith, Bool-cases,
}
use dsystem_homework.Kv.Store.{Bytes, Store, set, get}
use dsystem_homework.Kv.Receiver.{Request, get_command, set_command}

-- The channels of a client; `res` holds 500 answers.
pub record Client : Type 0 where
  pub req : List Request
  pub res : List Request

-- What a pass over the clients leaves.
pub record Pass : Type 0 where
  pub clients : List Client
  pub kvstore : Store
  pub answers : List Request

abbrev answer : Request → Store → List Request
answer r kvstore =
    if bytes_beq r.command get_command
    then record { command = []; key = r.key; value = get r.key kvstore } ∷ []
    else []

abbrev pub apply : Request → Store → Store
apply r kvstore = if bytes_beq r.command set_command then set r.key r.value kvstore else kvstore

take_request : Client → List Request → Store → Pass
take_request c [] kvstore = record { clients = c ∷ []; kvstore = kvstore; answers = [] }
take_request c (r ∷ rest) kvstore = record {
  clients = record c { req = rest } ∷ [];
  kvstore = apply r kvstore;
  answers = answer r kvstore;
}

abbrev then_pass : Pass → Pass → Pass
then_pass p q = record {
  clients = p.clients ++ q.clients;
  kvstore = q.kvstore;
  answers = p.answers ++ q.answers;
}

-- The first loop over the clients.
unfoldable pub collect : List Client → Store → Pass
unfolding take_request
collect [] kvstore = record { clients = []; kvstore = kvstore; answers = [] }
collect (c ∷ cs) kvstore =
    let first = take_request c c.req kvstore in then_pass first (collect cs first.kvstore)

abbrev pub capacity : ℕ
capacity = 500

-- A send that is given up when the channel is full.
abbrev offer : Request → Client → Client
offer r c = if ltb (length c.res) capacity then record c { res = c.res ++ r ∷ [] } else c

unfoldable pub offer_all : List Request → Client → Client
offer_all [] c = c
offer_all (r ∷ rs) c = offer_all rs (offer r c)

-- A round: both loops, the second only with answers to send.
unfoldable pub dispatch : List Client → Store → Pass
dispatch clients kvstore =
    let p = collect clients kvstore in record p { clients = map (offer_all p.answers) p.clients }
