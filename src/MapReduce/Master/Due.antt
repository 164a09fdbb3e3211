-- ===== src/MapReduce/Master/Due.antt =====
-- In project-3/src/mapreduce/master.go the master never misses the last signal: it starts the reduce jobs
-- with the last map job that it counts, and returns with the last reduce job.
use dsystem_homework.Base.{
  ℕ, zero, suc, ◌<◌, ◌≡◌, ◌⊎◌, refl, ◌∙◌, inl, inr, true, false, nat_beq, arith, Bool-cases,
}
use dsystem_homework.MapReduce.Master.{
  Master, Case, from_register, from_map_done, from_reduce_done, count_map, count_reduce,
  master_round, run_master, System, start, init_map_reduce, Step, moves, masters, Reach, here, next,
}
use dsystem_homework.MapReduce.Master.Keeps.{run_worker-Moved}

-- What is left is still to be counted.
abbrev pub Due : ℕ → ℕ → Master → Type 0
Due n_map n_reduce m =
    ((m.reduce_start ≡ true) ⊎ (m.maps_counted < n_map))
    × ((m.finished ≡ true) ⊎ (m.reduces_counted < n_reduce))
    × (m.n_map ≡ n_map)
    × (m.n_reduce ≡ n_reduce)

module _ {N R : ℕ} where
  count_map-Due : (n : ℕ) (m : Master) → Due N R m → Due N R (count_map n m)
  unfolding count_map
  count_map-Due zero m due = due
  count_map-Due (suc n) m (inl on, left, e, e') = (inl (ground (arith, on)), left, e, e')
  count_map-Due (suc n) m (inr more, left, e, e') = (
    elim (Bool-cases (nat_beq (suc m.maps_counted) m.n_map)) [
      | inl last ↦ inl (ground (arith, last))
      | inr before ↦ inr (ground (arith, before, e, more))
    ],
    left,
    e,
    e',
  )

  count_reduce-Due :
      (n : ℕ) (m : Master) → m.finished ≡ false → Due N R m → Due N R (count_reduce n m)
  unfolding count_reduce
  count_reduce-Due zero m goes due = due
  count_reduce-Due (suc n) m goes (start, inl ended, e, e') = absurd (cc (goes, ended))
  count_reduce-Due (suc n) m goes (start, inr more, e, e') = (
    start,
    elim (Bool-cases (nat_beq (suc m.reduces_counted) m.n_reduce)) [
      | inl last ↦ inl last
      | inr before ↦ inr (ground (arith, before, e', more))
    ],
    e,
    e',
  )

  master_round-Due :
      (c : Case) (m : Master) → m.finished ≡ false → Due N R m → Due N R (master_round c m).0
  unfolding master_round
  master_round-Due from_register m goes due = due
  master_round-Due from_map_done m goes due = count_map-Due m.map_done m due
  master_round-Due from_reduce_done m goes due = count_reduce-Due m.reduce_done m goes due

  run_master-Due : (c : Case) (m : Master) → Due N R m → Due N R (run_master c m).0
  unfolding run_master
  run_master-Due c m due = elim (Bool-cases m.finished) [
    | inl ended ↦ simp ended (due.0, inl refl, due.2, due.3)
    | inr goes ↦ simp goes (master_round-Due c m goes due)
  ]

  pub Step-Due : {s t : System} → Step s t → Due N R s.master → Due N R t.master
  Step-Due {s} (moves front back w move e) (start, left, size, size') =
      let (on, counted, reduced, ended, same, same') = (run_worker-Moved move w s.master).rest in
      (
        elim start [ inl before ↦ inl (on ∙ before) | inr more ↦ inr (rw counted more) ],
        elim left [ inl before ↦ inl (ended ∙ before) | inr more ↦ inr (rw reduced more) ],
        same ∙ size,
        same' ∙ size',
      )
  Step-Due {s} (masters c) due = run_master-Due c s.master due

  pub Reach-Due : {s t : System} → Reach s t → Due N R s.master → Due N R t.master
  Reach-Due here due = due
  Reach-Due (next r step) due = Step-Due step (Reach-Due r due)

pub start-Due :
    (n_map n_reduce : ℕ)
    → 0 < n_map
    → 0 < n_reduce
    → Due n_map n_reduce (start n_map n_reduce).master
unfolding start init_map_reduce
start-Due n_map n_reduce some_maps some_reduces = (inr some_maps, inr some_reduces, refl, refl)
