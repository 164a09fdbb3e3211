-- ===== src/Kv/Server/Keeps.antt =====
-- Receivers that run and the list of clients, in project-1/src/example.com/p1/server.go.
use dsystem_homework.Base.{
  ℕ, suc, ◌+◌, ◌-◌, ◌≡◌, refl, sym, ap, ◌∙◌, ◌⊎◌, inl, inr, Bool, true, false, nat_beq, nat_beq_iff,
  List, [], ◌∷◌, ◌++◌, Option, none, some, if◌then◌else◌, Dict, lookup, insert, lookup-insert,
  nat_key, arith, Bool-cases,
}
use dsystem_homework.Kv.Clist
use dsystem_homework.Kv.Receiver.{Request}
use dsystem_homework.Kv.Dispatch.{Client}
use dsystem_homework.Kv.Server.{Connection, send, put, put_all}

-- How often a number is in a list.
unfoldable pub occurrences : ℕ → List ℕ → ℕ
occurrences m [] = 0
occurrences m (n ∷ ns) = let rest = occurrences m ns in if nat_beq n m then suc rest else rest

abbrev pub runs : Option Connection → ℕ
runs none = 0
runs (some c) = if c.receiving then 1 else 0

-- 1 for a connection whose receiver has not returned.
abbrev pub receiving_at : ℕ → Dict ℕ Connection → ℕ
receiving_at m connections = runs (lookup m connections)

pub occurrences-push_back :
    (m n : ℕ) (ns : List ℕ)
    → occurrences m (ns ++ n ∷ []) ≡ occurrences m ns + (if nat_beq n m then 1 else 0)
unfolding occurrences
occurrences-push_back m n [] = ground arith
occurrences-push_back m n (k ∷ ns) = ground (arith, occurrences-push_back m n ns)

pub occurrences-remove :
    (m n : ℕ) (ns : List ℕ)
    → occurrences m (Clist.remove n ns).1 ≡ occurrences m ns - (if nat_beq n m then 1 else 0)
unfolding occurrences Clist.remove
occurrences-remove m n [] = ground arith
occurrences-remove m n (k ∷ ns) = elim (Bool-cases (nat_beq k n)) [
  | inl found ↦ rw found (ground arith)
  | inr miss ↦ rw miss (ground (arith, occurrences-remove m n ns))
]

pub receiving_at-insert :
    (m n : ℕ) (c : Connection) (connections : Dict ℕ Connection)
    → receiving_at m (insert n c connections)
      ≡ (if nat_beq n m then runs (some c) else receiving_at m connections)
receiving_at-insert m n c connections =
    ap runs (lookup-insert n m c connections) ∙ pushed (nat_beq n m)
  where
    pushed :
        (b : Bool)
        → runs (if b then some c else lookup m connections)
          ≡ (if b then runs (some c) else receiving_at m connections)
    pushed true = refl
    pushed false = refl

-- No receiver returns and no connection is made.
pub record Keeps (before after : Dict ℕ Connection) : Type 0 where
  pub receivers : (m : ℕ) → receiving_at m after ≡ receiving_at m before
  pub no_more : (m : ℕ) → lookup m before ≡ none → lookup m after ≡ none

unchanged-Keeps : (connections : Dict ℕ Connection) → Keeps connections connections
unchanged-Keeps connections = record { receivers = λ m. refl; no_more = λ m h. h }

pub still_none :
    (n m : ℕ) (c : Connection) (connections : Dict ℕ Connection) {old : Connection}
    → lookup n connections ≡ some old
    → lookup m connections ≡ none
    → lookup m (insert n c connections) ≡ none
still_none n m c connections here none_there = elim (Bool-cases (nat_beq n m)) [
  | inl same ↦
      let found : lookup m connections ≡ some _ =
        ap (λ k. lookup k connections) (sym ((nat_beq_iff n m).0 same)) ∙ here in
      absurd (cc (sym found ∙ none_there))
  | inr other ↦ lookup-insert n m c connections ∙ rw other none_there
]

pub insert-Keeps :
    (n : ℕ) (c old : Connection) (connections : Dict ℕ Connection)
    → lookup n connections ≡ some old
    → c.receiving ≡ old.receiving
    → Keeps connections (insert n c connections)
insert-Keeps n c old connections here same = record {
  receivers = λ m. receiving_at-insert m n c connections ∙ agrees m (Bool-cases (nat_beq n m));
  no_more = λ m h. still_none n m c connections here h;
}
  where
    agrees :
        (m : ℕ)
        → (nat_beq n m ≡ true) ⊎ (nat_beq n m ≡ false)
        → (if nat_beq n m then runs (some c) else receiving_at m connections)
          ≡ receiving_at m connections
    agrees m (inl hit) = rw hit (
        ap (λ b. if b then 1 else 0) same
        ∙ ap runs (sym here)
        ∙ ap (λ k. receiving_at k connections) ((nat_beq_iff n m).0 hit))
    agrees m (inr miss) = rw miss refl

Keeps-trans : (a b c : Dict ℕ Connection) → Keeps a b → Keeps b c → Keeps a c
Keeps-trans a b c first rest = record {
  receivers = λ m. rest.receivers m ∙ first.receivers m;
  no_more = λ m h. rest.no_more m (first.no_more m h);
}

put-Keeps :
    (channels : Client) (o : Option Connection) (n : ℕ) (connections : Dict ℕ Connection)
    → lookup n connections ≡ o
    → Keeps connections (put channels o n connections)
unfolding put
put-Keeps channels none n connections here = unchanged-Keeps connections
put-Keeps channels (some c) n connections here =
    insert-Keeps n (record c { channels = channels }) c connections here refl

pub put_all-Keeps :
    (ns : List ℕ) (channels : List Client) (connections : Dict ℕ Connection)
    → Keeps connections (put_all ns channels connections)
unfolding put_all
put_all-Keeps [] channels connections = unchanged-Keeps connections
put_all-Keeps (n ∷ ns) [] connections = unchanged-Keeps connections
put_all-Keeps (n ∷ ns) (first ∷ channels) connections =
    let after = put first (lookup n connections) n connections in
    Keeps-trans connections after (put_all ns channels after)
      (put-Keeps first (lookup n connections) n connections refl) (put_all-Keeps ns channels after)

pub send_same : (rs : List Request) (c : Connection) → (send rs c).receiving ≡ c.receiving
unfolding send
send_same [] c = refl
send_same (r ∷ rs) c = refl
