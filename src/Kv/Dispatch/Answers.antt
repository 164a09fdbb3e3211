-- ===== src/Kv/Dispatch/Answers.antt =====
-- What a round of `dispatch` in project-1/src/example.com/p1/server.go answers.
use dsystem_homework.Base.{
  bytes_beq, bytes_beq_iff, bytes_key, ℕ, zero, suc, ◌+◌, ◌-◌, ◌≤◌, ◌≡◌, refl, sym, ap, ◌∙◌, subst,
  inl, inr, Bool, true, false, ◌&&◌, ltb, List, [], ◌∷◌, ◌++◌, length, take, All, In, here, there,
  lookup-insert, length-append, append_assoc, append-nil, arith, Bool-cases,
}
use dsystem_homework.Kv.Store.{Bytes, Store, get}
use dsystem_homework.Kv.Receiver.{Request, get_command, set_command}
use dsystem_homework.Kv.Dispatch.{Client, apply, take_request, collect, capacity, offer_all}

-- Whether the request that a client's turn takes sets `key`.
abbrev pub sets_key : Bytes → List Request → Bool
sets_key key [] = false
sets_key key (r ∷ rest) = bytes_beq r.command set_command && bytes_beq r.key key

get-apply :
    (key : Bytes) (r : Request) (kvstore : Store)
    → (bytes_beq r.command set_command && bytes_beq r.key key) ≡ false
    → get key (apply r kvstore) ≡ get key kvstore
get-apply key r kvstore other = elim (Bool-cases (bytes_beq r.command set_command)) [
  | inl sets ↦
      let miss : bytes_beq r.key key ≡ false = rw sets at other in
      rw (sets, lookup-insert r.key key r.value kvstore, miss) refl
  | inr reads ↦ rw reads refl
]

get-take_request :
    (key : Bytes) (c : Client) (rs : List Request) (kvstore : Store)
    → sets_key key rs ≡ false
    → get key (take_request c rs kvstore).kvstore ≡ get key kvstore
unfolding take_request
get-take_request key c [] kvstore other = refl
get-take_request key c (r ∷ rest) kvstore other = get-apply key r kvstore other

get-collect :
    (key : Bytes) (cs : List Client) (kvstore : Store)
    → All (λ c. sets_key key c.req ≡ false) cs
    → get key (collect cs kvstore).kvstore ≡ get key kvstore
unfolding collect
get-collect key [] kvstore all = refl
get-collect key (c ∷ cs) kvstore (other, all) =
    get-collect key cs (take_request c c.req kvstore).kvstore all
    ∙ get-take_request key c c.req kvstore other

In-append_right : (xs ys : List Request) {a : Request} → In a ys → In a (xs ++ ys)
In-append_right [] ys i = i
In-append_right (x ∷ xs) ys i = there (In-append_right xs ys i)

In-append_left : (xs ys : List Request) {a : Request} → In a xs → In a (xs ++ ys)
In-append_left (x ∷ xs) ys here = here
In-append_left (x ∷ xs) ys (there i) = there (In-append_left xs ys i)
In-append_left [] ys i = elim i [ ]

-- The answers of a later client are among those of the pass.
collect-skip :
    (before after : List Client) (kvstore : Store) {a : Request}
    → In a (collect after (collect before kvstore).kvstore).answers
    → In a (collect (before ++ after) kvstore).answers
unfolding collect
collect-skip [] after kvstore i = i
collect-skip (c ∷ before) after kvstore i =
    In-append_right (take_request c c.req kvstore).answers _
      (collect-skip before after (take_request c c.req kvstore).kvstore i)

get_set :
    (r : Request) (kvstore : Store)
    → r.command ≡ set_command
    → get r.key (apply r kvstore) ≡ r.value
get_set r kvstore sets =
    let yes_sets : bytes_beq r.command set_command ≡ true =
      (bytes_beq_iff r.command set_command).1 sets in
    let self : bytes_beq r.key r.key ≡ true = (bytes_beq_iff r.key r.key).1 refl in
    rw (yes_sets, lookup-insert r.key r.key r.value kvstore, self) refl

-- A client whose turn comes with a get is answered with what the store has then.
answered :
    (c : Client) (cs : List Client) (kvstore : Store) (r : Request) (rest : List Request)
    (v : Bytes)
    → c.req ≡ r ∷ rest
    → r.command ≡ get_command
    → get r.key kvstore ≡ v
    → In (record { command = []; key = r.key; value = v }) (collect (c ∷ cs) kvstore).answers
unfolding collect take_request
answered c cs kvstore r rest v e gets now =
    let yes_gets : bytes_beq r.command get_command ≡ true =
      (bytes_beq_iff r.command get_command).1 gets in
    rw e (rw yes_gets (rw now here))

-- In a round of `dispatch`, a get of a client that comes after a client with a set of the same key,
-- with no set of that key by the clients between them, is answered with the value that was set.
pub last_set_answers :
    (before between after : List Client) (writer reader : Client) (kvstore : Store) (w r : Request)
    (ws rs : List Request)
    → writer.req ≡ w ∷ ws
    → reader.req ≡ r ∷ rs
    → w.command ≡ set_command
    → r.command ≡ get_command
    → r.key ≡ w.key
    → All (λ c. sets_key w.key c.req ≡ false) between
    → In
        (record { command = []; key = w.key; value = w.value })
        (collect (before ++ (writer ∷ (between ++ (reader ∷ after)))) kvstore).answers
unfolding collect take_request
last_set_answers before between after writer reader kvstore w r ws rs ew er sets gets same others =
    collect-skip before (writer ∷ (between ++ (reader ∷ after))) kvstore (
      In-append_right (take_request writer writer.req s).answers _
        (collect-skip between (reader ∷ after) s' (subst Answered same found)))
  where
    s : Store
    s = (collect before kvstore).kvstore

    s' : Store
    s' = (take_request writer writer.req s).kvstore

    stored : get w.key s' ≡ w.value
    stored = rw ew (get_set w s sets)

    Answered : Bytes → Type 0
    Answered key =
        In (record { command = []; key = key; value = w.value })
          (collect (reader ∷ after) (collect between s').kvstore).answers

    found : Answered r.key
    found =
        answered reader after (collect between s').kvstore r rs w.value er gets
          (rw same (get-collect w.key between s' others ∙ stored))

offer_all_room :
    (rs : List Request) (n : ℕ) (c : Client)
    → length c.res + n ≡ capacity
    → offer_all rs c ≡ record c { res = c.res ++ take n rs }
unfolding offer_all
offer_all_room [] zero c e = ap (λ res. record c { res = res }) (sym (append-nil c.res))
offer_all_room [] (suc n) c e = ap (λ res. record c { res = res }) (sym (append-nil c.res))
offer_all_room (r ∷ rs) zero c e =
    let full : ltb (length c.res) capacity ≡ false = ground arith in
    ap (offer_all rs) (simp full refl) ∙ offer_all_room rs zero c e
offer_all_room (r ∷ rs) (suc n) c e =
    let room : ltb (length c.res) capacity ≡ true = ground arith in
    let c' : Client = record c { res = c.res ++ r ∷ [] } in
    ap (offer_all rs) (simp room refl)
    ∙ offer_all_room rs n c' (omega (arith, length-append c.res (r ∷ [])))
    ∙ ap (λ res. record c { res = res }) (append_assoc c.res (r ∷ []) (take n rs))

-- Of the answers that are sent to a client, its channel takes as many, in their order, as it has
-- places for, behind those that it holds; the others are lost to the client.
offer_all_fits :
    (rs : List Request) (c : Client)
    → length c.res ≤ capacity
    → offer_all rs c ≡ record c { res = c.res ++ take (capacity - length c.res) rs }
offer_all_fits rs c h = offer_all_room rs (capacity - length c.res) c (omega arith)
