-- ===== src/MapReduce/Master/Stalls.antt =====
-- The workers of project-3/src/mapreduce/master.go return from `RunWorker` for good: a run on which all of
-- them have.
use dsystem_homework.Base.{
  ℕ, ◌+◌, ◌≤◌, ◌<◌, ◌≡◌, refl, sym, ◌∙◌, inl, inr, true, false, List, [], ◌∷◌, ◌++◌, length,
  length-append, arith, Bool-cases, subst,
}
use dsystem_homework.MapReduce.Master.{
  Master, Runner, wants_map, calls_map, wants_reduce, calls_reduce, returned, Move, takes_job,
  sees_start, hears, run_worker, run_master, System, start, map_ended, reduce_ended, Step, moves,
  masters, Reach, here, next,
}
use dsystem_homework.MapReduce.Master.Tally.{weigh, weigh-append}
use dsystem_homework.MapReduce.Master.Order.{Reach-Inv, start-Inv}

-- 1 for a worker whose goroutine has not returned.
abbrev pub running : Runner → ℕ
running returned = 0
running wants_map = 1
running (calls_map j) = 1
running wants_reduce = 1
running (calls_reduce j) = 1

running-bounded : (w : Runner) → running w ≤ 1
running-bounded returned = omega arith
running-bounded wants_map = omega arith
running-bounded (calls_map j) = omega arith
running-bounded wants_reduce = omega arith
running-bounded (calls_reduce j) = omega arith

weigh-running : (ws : List Runner) → weigh running ws ≤ length ws
unfolding weigh
weigh-running [] = omega arith
weigh-running (w ∷ ws) = omega (arith, running-bounded w, weigh-running ws)

-- A worker that has returned answers no more.
run_worker-returned :
    (move : Move) (w : Runner) (m : Master)
    → running w ≡ 0
    → (running (run_worker move w m).0 ≡ 0) × (length (reduce_ended move w) ≡ 0)
unfolding run_worker
run_worker-returned takes_job returned m idle = (refl, refl)
run_worker-returned sees_start returned m idle = (refl, refl)
run_worker-returned (hears true) returned m idle = (refl, refl)
run_worker-returned (hears false) returned m idle = (refl, refl)
run_worker-returned move wants_map m idle = absurd (omega arith)
run_worker-returned move (calls_map j) m idle = absurd (omega arith)
run_worker-returned move wants_reduce m idle = absurd (omega arith)
run_worker-returned move (calls_reduce j) m idle = absurd (omega arith)

-- Workers only come, and none comes without a registration: then nothing is answered.
abbrev Still : System → System → Type 0
Still s t =
    (length s.runners ≤ length t.runners)
    × (length t.runners ≤ length s.runners
        → (weigh running t.runners ≡ 0) × (length t.did_reduce ≡ length s.did_reduce))

moved-Still :
    (s t : System) (front back : List Runner) (w : Runner) (move : Move)
    → t.runners ≡ front ++ (w ∷ back)
    → Still s t
    → Still s (record {
      master = (run_worker move w t.master).1;
      runners = front ++ ((run_worker move w t.master).0 ∷ back);
      did_map = t.did_map ++ map_ended move w;
      did_reduce = t.did_reduce ++ reduce_ended move w;
    })
unfolding weigh
moved-Still s t front back w move e (more, quiet) =
    let w' = (run_worker move w t.master).0 in
    let size : length t.runners ≡ length front + length (w ∷ back) =
      rw e (length-append front (w ∷ back)) in
    let size' = length-append front (w' ∷ back) in
    (
      omega (arith, more, size, size'),
      λ few.
          let (idle, told) = quiet (omega (arith, few, size, size')) in
          let before : weigh running front + (running w + weigh running back) ≡ 0 =
            sym (weigh-append running front (w ∷ back))
            ∙ subst (λ rs. weigh running rs ≡ 0) e idle in
          let after = run_worker-returned move w t.master (omega arith) in
          (
            omega (arith, after.0, weigh-append running front (w' ∷ back)),
            omega (arith, after.1, told, length-append t.did_reduce (reduce_ended move w)),
          ),
    )

Step-Still : (s : System) {t u : System} → Step t u → Still s t → Still s u
unfolding weigh
Step-Still s {t} (moves front back w move e) still = moved-Still s t front back w move e still
Step-Still s {t} (masters c) (more, quiet) =
    let new = (run_master c t.master).1 in
    let size = length-append t.runners new in
    (
      omega (arith, more, size),
      λ few.
          let (idle, told) = quiet (omega (arith, few, size)) in
          (
            omega (
              arith,
              few,
              more,
              size,
              idle,
              weigh-append running t.runners new,
              weigh-running new,
            ),
            told,
          ),
    )

Reach-Still : (s : System) {t : System} → weigh running s.runners ≡ 0 → Reach s t → Still s t
Reach-Still s idle here = (omega arith, λ few. (idle, refl))
Reach-Still s idle (next r step) = Step-Still s step (Reach-Still s idle r)

-- If, in a reachable state, the goroutine of every worker has returned and fewer reduce jobs have been
-- answered as done than there are, then the master has not finished in any later state in which no
-- further worker has registered.
pub returned_workers_stall :
    (n_map n_reduce : ℕ) (s t : System)
    → Reach (start n_map n_reduce) s
    → weigh running s.runners ≡ 0
    → length s.did_reduce < n_reduce
    → Reach s t
    → length t.runners ≤ length s.runners
    → t.master.finished ≡ false
returned_workers_stall n_map n_reduce s t before idle undone after few =
    let inv = Reach-Inv after (Reach-Inv before (start-Inv n_map n_reduce)) in
    elim (Bool-cases t.master.finished) [
      | inl ended ↦ absurd (
          omega (
            arith,
            undone,
            inv.ended ended,
            inv.reduces_told,
            ((Reach-Still s idle after).1 few).1,
          ))
      | inr goes ↦ goes
    ]
