-- ===== src/Kv/Server/Clients.antt =====
-- The list of clients of project-1/src/example.com/p1/server.go.
use dsystem_homework.Base.{
  ℕ, suc, ◌+◌, ◌-◌, ◌≤◌, ◌≡◌, refl, sym, ap, ◌∙◌, ◌⊎◌, inl, inr, true, false, nat_beq, List, [],
  ◌∷◌, map, Option, none, some, if◌then◌else◌, Dict, lookup, insert, lookup-insert, nat_key, arith,
  Bool-cases,
}
use dsystem_homework.Kv.Server.Keeps.{
  occurrences, runs, receiving_at, occurrences-push_back, occurrences-remove, receiving_at-insert,
  Keeps, still_none, insert-Keeps, put_all-Keeps, send_same,
}
use dsystem_homework.Kv.Store.{Store}
use dsystem_homework.Kv.Receiver.{receive_one}
use dsystem_homework.Kv.Dispatch.{dispatch}
use dsystem_homework.Kv.Server.{
  Connection, Server, start, new_connection, accept, close, receive, change_of, with_connection,
  leave, receiver_of, channels_of, put_all, dispatch_round, Event, accepts, closes, dispatches,
  arrives, hangs_up, receives, sends, step, run,
}

record HasClients (s : Server) : Type 0 where
  pub listed : (m : ℕ) → occurrences m s.clients ≡ receiving_at m s.connections
  pub fresh : (m : ℕ) → s.accepted ≤ m → lookup m s.connections ≡ none

Keeps-HasClients :
    (s : Server) (connections : Dict ℕ Connection) (kvstore : Store)
    → Keeps s.connections connections
    → HasClients s
    → HasClients (record s { connections = connections; kvstore = kvstore })
Keeps-HasClients s connections kvstore keeps h = record {
  listed = λ m. h.listed m ∙ sym (keeps.receivers m);
  fresh = λ m above. keeps.no_more m (h.fresh m above);
}

change_of-HasClients :
    (n : ℕ) (change : Connection → Connection) (s : Server) (o : Option Connection)
    → lookup n s.connections ≡ o
    → ((c : Connection) → (change c).receiving ≡ c.receiving)
    → HasClients s
    → HasClients (change_of change n o s)
unfolding change_of
change_of-HasClients n change s none here same h = h
change_of-HasClients n change s (some c) here same h =
    Keeps-HasClients s (insert n (change c) s.connections) s.kvstore
      (insert-Keeps n (change c) c s.connections here (same c)) h

accept-HasClients : (s : Server) → HasClients s → HasClients (accept s)
unfolding accept
accept-HasClients s h = elim (Bool-cases s.listening) [
  | inl on ↦ simp on (record {
    listed = λ m.
        occurrences-push_back m s.accepted s.clients
        ∙ one_more m (Bool-cases (nat_beq s.accepted m))
        ∙ sym (receiving_at-insert m s.accepted new_connection s.connections);
    fresh = λ m above.
        lookup-insert s.accepted m new_connection s.connections
        ∙ behind m above (Bool-cases (nat_beq s.accepted m));
  })
  | inr off ↦ simp off h
]
  where
    one_more :
        (m : ℕ)
        → (nat_beq s.accepted m ≡ true) ⊎ (nat_beq s.accepted m ≡ false)
        → occurrences m s.clients + (if nat_beq s.accepted m then 1 else 0)
          ≡ (if nat_beq s.accepted m then 1 else receiving_at m s.connections)
    one_more m (inl hit) =
        let none_yet : receiving_at m s.connections ≡ 0 = ap runs (h.fresh m (ground arith)) in
        rw hit (omega (arith, h.listed m, none_yet))
    one_more m (inr miss) = rw miss (omega (arith, h.listed m))

    behind :
        (m : ℕ)
        → suc s.accepted ≤ m
        → (nat_beq s.accepted m ≡ true) ⊎ (nat_beq s.accepted m ≡ false)
        → (if nat_beq s.accepted m then some new_connection else lookup m s.connections) ≡ none
    behind m above (inl hit) = absurd (ground arith)
    behind m above (inr miss) = rw miss (h.fresh m (omega arith))

runs_le : (o : Option Connection) → runs o ≤ 1
runs_le none = omega arith
runs_le (some c) = ground arith

leave-HasClients :
    (n : ℕ) (c old : Connection) (s : Server)
    → lookup n s.connections ≡ some old
    → old.receiving ≡ true
    → HasClients s
    → HasClients (leave n c (record s { connections = insert n c s.connections }))
unfolding leave
leave-HasClients n c old s here on h = elim (Bool-cases c.receiving) [
  | inl still ↦ simp still (
      Keeps-HasClients s (insert n c s.connections) s.kvstore
        (insert-Keeps n c old s.connections here (still ∙ sym on)) h)
  | inr off ↦ simp off (record {
    listed = λ m.
        occurrences-remove m n s.clients
        ∙ one_less off m (Bool-cases (nat_beq n m))
        ∙ sym (receiving_at-insert m n c s.connections);
    fresh = λ m above. still_none n m c s.connections here (h.fresh m above);
  })
]
  where
    one_less :
        c.receiving ≡ false
        → (m : ℕ) → (nat_beq n m ≡ true) ⊎ (nat_beq n m ≡ false)
        → occurrences m s.clients - (if nat_beq n m then 1 else 0)
          ≡ (if nat_beq n m then runs (some c) else receiving_at m s.connections)
    one_less off m (inl hit) =
        rw (hit, off) (omega (arith, h.listed m, runs_le (lookup m s.connections)))
    one_less off m (inr miss) = rw miss (omega (arith, h.listed m))

receiver_of-HasClients :
    (n : ℕ) (s : Server) (o : Option Connection)
    → lookup n s.connections ≡ o
    → HasClients s
    → HasClients (receiver_of n o s)
unfolding receiver_of
receiver_of-HasClients n s none here h = h
receiver_of-HasClients n s (some c) here h = elim (Bool-cases c.receiving) [
  | inl on ↦ simp on (leave-HasClients n (receive (receive_one c.input) c) c s here on h)
  | inr off ↦ simp off h
]

step-HasClients : (e : Event) (s : Server) → HasClients s → HasClients (step e s)
unfolding step close dispatch_round with_connection
step-HasClients accepts s h = accept-HasClients s h
step-HasClients closes s h = record { listed = h.listed; fresh = h.fresh }
step-HasClients dispatches s h =
    let pass = dispatch (map (λ n. channels_of n s.connections) s.clients) s.kvstore in
    Keeps-HasClients s (put_all s.clients pass.clients s.connections) pass.kvstore
      (put_all-Keeps s.clients pass.clients s.connections) h
step-HasClients (arrives n bytes) s h =
    change_of-HasClients n _ s (lookup n s.connections) refl (λ c. refl) h
step-HasClients (hangs_up n) s h =
    change_of-HasClients n _ s (lookup n s.connections) refl (λ c. refl) h
step-HasClients (receives n) s h = receiver_of-HasClients n s (lookup n s.connections) refl h
step-HasClients (sends n) s h =
    change_of-HasClients n _ s (lookup n s.connections) refl (λ c. send_same c.channels.res c) h

run-HasClients : (events : List Event) (s : Server) → HasClients s → HasClients (run events s)
unfolding run
run-HasClients [] s h = h
run-HasClients (e ∷ events) s h = run-HasClients events (step e s) (step-HasClients e s h)

-- Whatever happens at a started server, and in whatever order its goroutines run: the list of clients,
-- of which `Count` gives the length, has each connection once while its receiver runs, and no
-- connection whose receiver has returned.
pub listed_while_receiving :
    (events : List Event) (n : ℕ)
    → occurrences n (run events start).clients ≡ receiving_at n (run events start).connections
unfolding start occurrences lookup
listed_while_receiving events n =
    (run-HasClients events start (record { listed = λ m. refl; fresh = λ m above. refl })).listed n
