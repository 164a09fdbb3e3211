-- ===== src/MapReduce/Master/Finishes.antt =====
-- A run of project-3/src/mapreduce/master.go can always be brought to its end.
use dsystem_homework.Base.{ℕ, zero, suc, ◌<◌, ◌≡◌, inl, inr, true, arith, Bool-cases}
use dsystem_homework.MapReduce.Master.{System, start, Step, Reach, here, next}
use dsystem_homework.MapReduce.Master.Order.{Inv, Reach-Inv, start-Inv}
use dsystem_homework.MapReduce.Master.Due.{Due, Reach-Due, start-Due}
use dsystem_homework.MapReduce.Master.Advance.{left_over}
use dsystem_homework.MapReduce.Master.Progress.{advance_unfinished}

first : {s t u : System} → Step s t → Reach t u → Reach s u
first step here = next here step
first step (next r later) = next (first step r) later

abbrev Finish : System → Type 0
Finish s = (t : System) × Reach s t × (t.master.finished ≡ true)

finish :
    {n_map n_reduce : ℕ} (n : ℕ) (s : System)
    → Inv n_map n_reduce s
    → Due n_map n_reduce s.master
    → left_over s < n
    → Finish s
finish zero s inv due few = absurd (omega arith)
finish (suc n) s inv due few = elim (Bool-cases s.master.finished) [
  | inl ended ↦ (s, here, ended)
  | inr goes ↦
      let (t, step, less) = advance_unfinished s inv due goes in
      let (u, r, ended) =
        finish n t (Reach-Inv (next here step) inv) (Reach-Due (next here step) due)
          (omega (arith, few, less)) in
      (u, first step r, ended)
]

-- With at least one map job and one reduce job, from every reachable state of the master and its
-- workers, whichever of them have failed, the run can go on to a state in which the master has
-- finished.
pub can_finish :
    (n_map n_reduce : ℕ) (s : System)
    → 0 < n_map
    → 0 < n_reduce
    → Reach (start n_map n_reduce) s
    → (t : System) × Reach s t × (t.master.finished ≡ true)
can_finish n_map n_reduce s maps reduces r =
    finish (suc (left_over s)) s (Reach-Inv r (start-Inv n_map n_reduce))
      (Reach-Due r (start-Due n_map n_reduce maps reduces)) (omega arith)
