-- ===== src/Lsp/Server/Clients.antt =====
-- The server's table of clients in project-2/src/example.com/lsp/server_impl.go: its invariant, on
-- addresses and numbers, and the changes of the table.
use text.Mathlib.TextEquality.{eq_iff}
use dsystem_homework.Base.{
  ℕ, ◌≤◌, ◌≡◌, ◌⊎◌, refl, sym, ap, ◌∙◌, inl, inr, ℤ, pos, int_eq, int_beq, int_beq_iff, true, false,
  ◌||◌, List, [], ◌∷◌, ◌++◌, Option, some, none, Dict, lookup, insert, lookup-insert, arith,
  Bool-cases, Option-cases, if◌then◌else◌, is_empty, ◌&&◌,
}
use dsystem_homework.Lsp.Message.{Message}
use dsystem_homework.Lsp.Status.{has_status, start_closing}
use dsystem_homework.Lsp.Info.{Addr, ClientInfo, new_info}
use dsystem_homework.Lsp.Server.{
  Server, begin_closing, registered, unregister, find_client, has_addr, same_addr, on_connect,
  accept, pass_on, remove_client, on_cls,
}

abbrev addr_of : Option ClientInfo → Option Addr
addr_of none = none
addr_of (some c) = some c.addr

-- The address of connection `id`.
abbrev pub addr_at : ℤ → Dict ℤ ClientInfo → Option Addr
addr_at id infos = addr_of (lookup id infos)

pub record Inv (s : Server) : Type 0 where
  pub unique :
      (i j : ℤ) (a : Addr)
      → registered i s.clients ≡ true
      → registered j s.clients ≡ true
      → addr_at i s.infos ≡ some a
      → addr_at j s.infos ≡ some a
      → i ≡ j
  pub fresh : (n : ℕ) → s.last_conn_id ≤ n → registered (pos n) s.clients ≡ false

pub registered-append :
    (id k : ℤ) (ks : List ℤ) → registered id (ks ++ k ∷ []) ≡ (registered id ks || int_beq k id)
unfolding registered
registered-append id k [] = ground arith
registered-append id k (j ∷ ks) = ground (arith, registered-append id k ks)

pub registered-unregister :
    (id j : ℤ) (ks : List ℤ)
    → registered j (unregister id ks) ≡ (if int_beq id j then false else registered j ks)
unfolding registered unregister
registered-unregister id j [] = ground arith
registered-unregister id j (k ∷ ks) =
    ground
      (arith, registered-unregister id j ks, int_beq_iff id j, int_beq_iff k id, int_beq_iff k j)

-- A write to the heap that leaves the address of the object alone.
addr_at-insert :
    (id j : ℤ) (c c' : ClientInfo) (infos : Dict ℤ ClientInfo)
    → lookup id infos ≡ some c
    → c'.addr ≡ c.addr
    → addr_at j (insert id c' infos) ≡ addr_at j infos
addr_at-insert id j c c' infos e same =
    ground (arith, lookup-insert id j c' infos, int_beq_iff id j)

same_addr_of :
    (addr : Addr) (o : Option ClientInfo) → addr_of o ≡ some addr → same_addr addr o ≡ true
same_addr_of addr none e = cc
same_addr_of addr (some c) e = (eq_iff c.addr addr).1 (ground arith)

-- A connection request from a known address is seen.
has_addr_complete :
    (addr : Addr) (infos : Dict ℤ ClientInfo) (ids : List ℤ) (id : ℤ)
    → registered id ids ≡ true
    → addr_at id infos ≡ some addr
    → has_addr addr infos ids ≡ true
unfolding has_addr registered
has_addr_complete addr infos [] id reg at = cc
has_addr_complete addr infos (k ∷ ids) id reg at = elim (Bool-cases (int_beq k id)) [
  | inl hit ↦ rw ((int_beq_iff k id).0 hit, same_addr_of addr (lookup id infos) at)
  | inr miss ↦
      let later : registered id ids ≡ true = rw miss at reg in
      ground (arith, has_addr_complete addr infos ids id later at)
]

-- A change that the table's properties do not see: addresses stay, entries may go.
pub record Calm (s s' : Server) : Type 0 where
  same_addrs : (j : ℤ) → addr_at j s'.infos ≡ addr_at j s.infos
  fewer : (j : ℤ) → registered j s'.clients ≡ true → registered j s.clients ≡ true
  same_next : s'.last_conn_id ≡ s.last_conn_id

pub Calm-Inv : {s s' : Server} → Calm s s' → Inv s → Inv s'
Calm-Inv {s} {s'} calm inv = record {
  unique = λ i j a ri rj ai aj.
      inv.unique i j a (calm.fewer i ri) (calm.fewer j rj) (sym (calm.same_addrs i) ∙ ai)
        (sym (calm.same_addrs j) ∙ aj);
  fresh = λ n h. elim (Bool-cases (registered (pos n) s'.clients)) [
    | inl there ↦
        let gone : registered (pos n) s.clients ≡ false =
          inv.fresh n (omega (arith, calm.same_next)) in
        cc (calm.fewer (pos n) there, gone)
    | inr gone ↦ gone
  ];
}

pub put-Calm :
    (s : Server) (id : ℤ) (c c' : ClientInfo)
    → lookup id s.infos ≡ some c
    → c'.addr ≡ c.addr
    → Calm s (record s { infos = insert id c' s.infos })
put-Calm s id c c' e same = record {
  same_addrs = λ j. addr_at-insert id j c c' s.infos e same;
  fewer = λ j r. r;
  same_next = refl;
}

find_client-lookup :
    (id : ℤ) (s : Server) (c : ClientInfo) → find_client id s ≡ some c → lookup id s.infos ≡ some c
unfolding find_client
find_client-lookup id s c e = ground arith

pub pass_on-Inv :
    (put : Message → ClientInfo → ClientInfo) (m : Message) (s : Server)
    → ((c : ClientInfo) → (put m c).addr ≡ c.addr)
    → Inv s
    → Inv (pass_on put m s)
unfolding pass_on
pass_on-Inv put m s keeps inv = elim (Option-cases (find_client m.conn_id s)) [
  | inl e ↦ rw (e, pass_on) inv
  | inr (c, e) ↦
      rw (e, pass_on)
        (Calm-Inv (put-Calm s m.conn_id c (put m c) (find_client-lookup m.conn_id s c e) (keeps c))
          inv)
]

begin_closing_addr : (c : ClientInfo) → (begin_closing c).addr ≡ c.addr
begin_closing_addr c = ground arith

-- An entry of the table after `accept` is the new one or an old one.
accept_entry :
    (addr : Addr) (s : Server) (i : ℤ) (a : Addr)
    → registered i (accept addr s).0.clients ≡ true
    → addr_at i (accept addr s).0.infos ≡ some a
    → ((i ≡ pos s.last_conn_id) × (a ≡ addr))
      ⊎ ((registered i s.clients ≡ true) × (addr_at i s.infos ≡ some a))
unfolding accept new_info
accept_entry addr s i a reg at =
    let id : ℤ = pos s.last_conn_id in
    let in_table : (registered i s.clients || int_beq id i) ≡ true =
      sym (registered-append i id s.clients) ∙ reg in
    let there : (if int_beq id i then some (new_info id addr s.params) else lookup i s.infos)
        ≡ lookup i (insert id (new_info id addr s.params) s.infos) =
      sym (lookup-insert id i (new_info id addr s.params) s.infos) in
    elim (Bool-cases (int_beq id i)) [
      | inl hit ↦ inl (sym ((int_beq_iff id i).0 hit), ground arith)
      | inr miss ↦ inr (ground arith, ground arith)
    ]

-- A new connection gets the next number and an address that no other has.
accept-Inv :
    (addr : Addr) (s : Server)
    → has_addr addr s.infos s.clients ≡ false
    → Inv s
    → Inv (accept addr s).0
unfolding accept
accept-Inv addr s free inv = record {
  unique = λ i j a ri rj ai aj. elim (accept_entry addr s i a ri ai) [
    | inl (new_i, same_i) ↦ elim (accept_entry addr s j a rj aj) [
      | inl (new_j, same_j) ↦ new_i ∙ sym new_j
      | inr (old_j, at_j) ↦ absurd (seen a j same_i old_j at_j)
    ]
    | inr (old_i, at_i) ↦ elim (accept_entry addr s j a rj aj) [
      | inl (new_j, same_j) ↦ absurd (seen a i same_j old_i at_i)
      | inr (old_j, at_j) ↦ inv.unique i j a old_i old_j at_i at_j
    ]
  ];
  fresh = λ n h. rw registered-append (ground (arith, inv.fresh n (omega arith)));
}
  where
    seen :
        (a : Addr) (k : ℤ)
        → a ≡ addr
        → registered k s.clients ≡ true
        → addr_at k s.infos ≡ some a
        → ⊥
    seen a k same reg at =
        let hit : has_addr addr s.infos s.clients ≡ true =
          has_addr_complete addr s.infos s.clients k reg (at ∙ ap some same) in
        cc

pub on_connect-Inv : (addr : Addr) (s : Server) → Inv s → Inv (on_connect addr s).0
unfolding on_connect
on_connect-Inv addr s inv = elim (Bool-cases (has_addr addr s.infos s.clients)) [
  | inl known ↦ rw known inv
  | inr free ↦ rw free (accept-Inv addr s free inv)
]

remove_client-Inv : (id : ℤ) (s : Server) → Inv s → Inv (remove_client id s)
unfolding remove_client
remove_client-Inv id s inv = elim (Option-cases (find_client id s)) [
  | inl e ↦ rw (e, remove_client) inv
  | inr (c, e) ↦
      rw (e, remove_client)
        (Calm-Inv
          (record {
            same_addrs = λ j.
                addr_at-insert id j c (begin_closing c) s.infos (find_client-lookup id s c e)
                  (begin_closing_addr c);
            fewer = λ j r. ground (arith, registered-unregister id j s.clients);
            same_next = refl;
          })
          inv)
]

pub on_cls-Inv : (id : ℤ) (s : Server) → Inv s → Inv (on_cls id s)
unfolding on_cls
on_cls-Inv id s inv =
    let s' = remove_client id s in
    let kept = remove_client-Inv id s inv in
    elim (Bool-cases (is_empty s'.clients && has_status s'.status start_closing)) [
      | inl last ↦ rw last (record { unique = kept.unique; fresh = kept.fresh })
      | inr more ↦ rw more kept
    ]
