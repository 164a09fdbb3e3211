-- ===== src/Bitcoin/Server/Schedule/Losses.antt =====
-- Lost connections in `schedule` of project-2/src/example.com/bitcoin/server/server.go.
use dsystem_homework.Base.{
  ◌≡◌, ◌≢◌, refl, subst, inl, inr, ℤ, pos, int_eq, int_beq, int_beq_iff, Option, some, none, lookup,
  lookup-insert, arith, Bool-cases, Option-cases,
}
use dsystem_homework.Bitcoin.Server.{Miner, Server}
use dsystem_homework.Bitcoin.Server.Schedule.{
  drop_free, drop_busy, lose_miner, lose_client, on_error,
}
use dsystem_homework.Bitcoin.Server.Schedule.Loads.{pend, busy-delete-le, busy-delete}
use dsystem_homework.Bitcoin.Server.Schedule.Invariant.{Counts, load, Inv, loaded, lighter}
use dsystem_homework.Bitcoin.Server.Schedule.Results.{busy-one, one_self}

abbrev pub Kept : Option Server → Type 0
Kept none = ⊥
Kept (some s) = Inv s

drop_free-Inv : (e : ℤ) (s : Server) → Inv s → Inv (drop_free e s)
drop_free-Inv e s inv =
    lighter refl (λ id h. omega (arith, busy-delete-le id e s.miners)) inv.named inv

drop_busy-Inv :
    (e : ℤ) (mn : Miner) (s : Server)
    → lookup e s.miners ≡ some mn
    → mn.client_id ≢ pos 0
    → Inv s
    → Inv (drop_busy e mn s)
unfolding pend
drop_busy-Inv e mn s there real inv =
    lighter refl (λ id h. omega (arith, busy-delete id e mn s.miners there)) (real, inv.named) inv

lose_miner-Kept :
    (e : ℤ) (mn : Miner) (s : Server)
    → lookup e s.miners ≡ some mn
    → Inv s
    → Kept (lose_miner e mn s)
unfolding lose_miner
lose_miner-Kept e mn s there inv = elim (Bool-cases (int_beq mn.client_id (pos 0))) [
  | inl idle ↦ rw idle (drop_free-Inv e s inv)
  | inr working ↦
      let real : mn.client_id ≢ pos 0 = λ z. cc (working, (int_beq_iff mn.client_id (pos 0)).1 z) in
      let some_load = busy-one mn.client_id e mn s.miners there in
      let self = one_self mn.client_id in
      let (u, known) =
        loaded (load mn.client_id s) (lookup mn.client_id s.tasks) (omega arith)
          (inv.counted mn.client_id real) in
      elim (Bool-cases u.lost) [
        | inl lost ↦ rw (working, known, lose_miner, lost) (drop_free-Inv e s inv)
        | inr kept ↦ rw (working, known, lose_miner, kept) (drop_busy-Inv e mn s there real inv)
      ]
]

lose_client-Inv : (e : ℤ) (s : Server) → Inv s → Inv (lose_client e s)
unfolding lose_client
lose_client-Inv e s inv = elim (Option-cases (lookup e s.tasks)) [
  | inl unknown ↦ rw (unknown, lose_client) inv
  | inr (t, known) ↦
      rw (known, lose_client)
        (record {
          counted = λ id h. elim (Bool-cases (int_beq e id)) [
            | inl same ↦
                let mine : lookup id s.tasks ≡ some t =
                  subst (λ z. lookup z s.tasks ≡ some t) ((int_beq_iff e id).0 same) known in
                let enough : Counts (load id s) (some t) = rw mine at (inv.counted id h) in
                rw (lookup-insert, same) enough
            | inr other ↦ rw (lookup-insert, other) (inv.counted id h)
          ];
          named = inv.named;
        })
]

pub on_error-Kept : (e : ℤ) (s : Server) → Inv s → Kept (on_error e s)
unfolding on_error
on_error-Kept e s inv = elim (Option-cases (lookup e s.miners)) [
  | inl unknown ↦ rw (unknown, on_error) (lose_client-Inv e s inv)
  | inr (mn, there) ↦ rw (there, on_error) (lose_miner-Kept e mn s there inv)
]
