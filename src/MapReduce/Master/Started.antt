-- ===== src/MapReduce/Master/Started.antt =====
-- In project-3/src/mapreduce/master.go no worker begins with the reduce jobs before they are started.
use dsystem_homework.Base.{
  ℕ, zero, suc, ◌+◌, ◌<◌, ◌≡◌, ◌⊎◌, refl, sym, ◌∙◌, inl, inr, Bool, true, false, List, [], ◌∷◌,
  length, length-append, arith, Bool-cases, subst,
}
use dsystem_homework.MapReduce.Master.{
  Master, Runner, wants_map, calls_map, wants_reduce, calls_reduce, returned, Move, takes_job,
  sees_start, hears, run_worker, Case, from_register, from_map_done, from_reduce_done, take_map,
  end_map, count_map, count_reduce, master_round, run_master, System, start, reduce_ended, Step,
  moves, masters, Reach, here, next,
}
use dsystem_homework.MapReduce.Master.Tally.{weigh, weigh-append}
use dsystem_homework.MapReduce.Master.Keeps.{run_worker-Moved}
use dsystem_homework.MapReduce.Master.Order.{Reach-Inv, start-Inv}

-- 1 for a worker in its second loop.
abbrev reducing : Runner → ℕ
reducing wants_reduce = 1
reducing (calls_reduce j) = 1
reducing _ = 0

take_map-reducing : (jobs : List ℕ) (m : Master) → reducing (take_map jobs m).0 ≡ 0
unfolding take_map
take_map-reducing [] m = refl
take_map-reducing (j ∷ jobs) m = refl

end_map-reducing : (j : ℕ) (ok : Bool) (m : Master) → reducing (end_map j ok m).0 ≡ 0
unfolding end_map
end_map-reducing j true m = refl
end_map-reducing j false m = refl

run_worker-reducing :
    (move : Move) (w : Runner) (m : Master)
    → m.reduce_start ≡ false
    → reducing w ≡ 0
    → (reducing (run_worker move w m).0 ≡ 0) × (length (reduce_ended move w) ≡ 0)
unfolding run_worker
run_worker-reducing takes_job wants_map m off idle = (take_map-reducing m.map_jobs m, refl)
run_worker-reducing sees_start wants_map m off idle = rw off (refl, refl)
run_worker-reducing (hears true) wants_map m off idle = (refl, refl)
run_worker-reducing (hears false) wants_map m off idle = (refl, refl)
run_worker-reducing takes_job (calls_map j) m off idle = (refl, refl)
run_worker-reducing sees_start (calls_map j) m off idle = (refl, refl)
run_worker-reducing (hears true) (calls_map j) m off idle = (end_map-reducing j true m, refl)
run_worker-reducing (hears false) (calls_map j) m off idle = (end_map-reducing j false m, refl)
run_worker-reducing move wants_reduce m off idle = absurd (omega arith)
run_worker-reducing move (calls_reduce j) m off idle = absurd (omega arith)
run_worker-reducing takes_job returned m off idle = (refl, refl)
run_worker-reducing sees_start returned m off idle = (refl, refl)
run_worker-reducing (hears true) returned m off idle = (refl, refl)
run_worker-reducing (hears false) returned m off idle = (refl, refl)

abbrev Begun : System → Type 0
Begun s =
    (s.master.reduce_start ≡ true) ⊎ ((weigh reducing s.runners ≡ 0) × (length s.did_reduce ≡ 0))

count_map-starts :
    (n : ℕ) (m : Master) → m.reduce_start ≡ true → (count_map n m).reduce_start ≡ true
unfolding count_map
count_map-starts zero m on = on
count_map-starts (suc n) m on = ground (arith, on)

count_reduce-starts :
    (n : ℕ) (m : Master) → m.reduce_start ≡ true → (count_reduce n m).reduce_start ≡ true
unfolding count_reduce
count_reduce-starts zero m on = on
count_reduce-starts (suc n) m on = on

master_round-starts :
    (c : Case) (m : Master)
    → (m.reduce_start ≡ true → (master_round c m).0.reduce_start ≡ true)
      × (weigh reducing (master_round c m).1 ≡ 0)
unfolding master_round weigh
master_round-starts from_register m = (λ on. on, omega arith)
master_round-starts from_map_done m = (count_map-starts m.map_done m, refl)
master_round-starts from_reduce_done m = (count_reduce-starts m.reduce_done m, refl)

run_master-starts :
    (c : Case) (m : Master)
    → (m.reduce_start ≡ true → (run_master c m).0.reduce_start ≡ true)
      × (weigh reducing (run_master c m).1 ≡ 0)
unfolding run_master weigh
run_master-starts c m = elim (Bool-cases m.finished) [
  | inl ended ↦ simp ended (λ on. on, refl)
  | inr goes ↦ simp goes (master_round-starts c m)
]

Step-Begun : {s t : System} → Step s t → Begun s → Begun t
unfolding weigh
Step-Begun {s} (moves front back w move e) (inl on) =
    inl ((run_worker-Moved move w s.master).rest.0 ∙ on)
Step-Begun {s} (moves front back w move e) (inr (none, undone)) =
    elim (Bool-cases s.master.reduce_start) [
      | inl on ↦ inl ((run_worker-Moved move w s.master).rest.0 ∙ on)
      | inr off ↦
          let before : weigh reducing front + (reducing w + weigh reducing back) ≡ 0 =
            sym (weigh-append reducing front (w ∷ back))
            ∙ subst (λ rs. weigh reducing rs ≡ 0) e none in
          let after = run_worker-reducing move w s.master off (omega arith) in
          inr (
            omega (
              arith,
              after.0,
              weigh-append reducing front ((run_worker move w s.master).0 ∷ back),
            ),
            omega (arith, after.1, length-append s.did_reduce (reduce_ended move w)),
          )
    ]
Step-Begun {s} (masters c) (inl on) = inl ((run_master-starts c s.master).0 on)
Step-Begun {s} (masters c) (inr (none, undone)) = inr (
  omega (
    arith,
    (run_master-starts c s.master).1,
    weigh-append reducing s.runners (run_master c s.master).1,
  ),
  undone,
)

Reach-Begun : {s t : System} → Reach s t → Begun s → Begun t
Reach-Begun here begun = begun
Reach-Begun (next r step) begun = Step-Begun step (Reach-Begun r begun)

-- In every reachable state in which the master has finished, with at least one reduce job: the reduce
-- jobs have been started.
pub finished-started :
    (n_map n_reduce : ℕ) (s : System)
    → Reach (start n_map n_reduce) s
    → s.master.finished ≡ true
    → 0 < n_reduce
    → s.master.reduce_start ≡ true
unfolding start weigh
finished-started n_map n_reduce s r off some_jobs =
    let inv = Reach-Inv r (start-Inv n_map n_reduce) in
    elim (Reach-Begun r (inr (refl, refl))) [
      | inl on ↦ on
      | inr (none, undone) ↦ absurd (omega (arith, inv.ended off, inv.reduces_told))
    ]
