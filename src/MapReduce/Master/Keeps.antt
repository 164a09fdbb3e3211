-- ===== src/MapReduce/Master/Keeps.antt =====
-- What the steps of project-3/src/mapreduce/master.go keep: each job is on its channel, with a worker, or
-- done.
use dsystem_homework.Base.{
  ℕ, ◌+◌, ◌≡◌, refl, inl, inr, Bool, true, false, List, [], ◌∷◌, ◌++◌, length, if◌then◌else◌, arith,
  Bool-cases,
}
use dsystem_homework.MapReduce.Master.{
  Master, Runner, wants_map, calls_map, wants_reduce, calls_reduce, returned, Move, takes_job,
  sees_start, hears, take_map, take_reduce, end_map, end_reduce, run_worker, map_ended,
  reduce_ended,
}
use dsystem_homework.MapReduce.Master.Tally.{tally, held_map, held_reduce, tally-append}

-- What a worker does not touch.
abbrev pub Same : Master → Master → Type 0
Same m m' =
    (m'.reduce_start ≡ m.reduce_start)
    × (m'.maps_counted ≡ m.maps_counted)
    × (m'.reduces_counted ≡ m.reduces_counted)
    × (m'.finished ≡ m.finished)
    × (m'.n_map ≡ m.n_map)
    × (m'.n_reduce ≡ m.n_reduce)

same : (m : Master) → Same m m
same m = (refl, refl, refl, refl, refl, refl)

-- A step of a worker moves its job and changes nothing else.
pub record Moved (w : Runner) (m : Master) (ended_map ended_reduce : List ℕ) (w' : Runner)
    (m' : Master) : Type 0 where
  pub maps :
      (g : ℕ → ℕ)
      → tally g m'.map_jobs + held_map g w' + tally g ended_map ≡ tally g m.map_jobs + held_map g w
  pub reduces :
      (g : ℕ → ℕ)
      → tally g m'.reduce_jobs + held_reduce g w' + tally g ended_reduce
        ≡ tally g m.reduce_jobs + held_reduce g w
  pub maps_told : m'.map_done ≡ m.map_done + length ended_map
  pub reduces_told : m'.reduce_done ≡ m.reduce_done + length ended_reduce
  pub rest : Same m m'

-- A step without an answer, after which the worker holds no other job than is missing.
quiet :
    (w w' : Runner) (m : Master) (map_jobs reduce_jobs : List ℕ)
    → ((g : ℕ → ℕ) → tally g map_jobs + held_map g w' ≡ tally g m.map_jobs + held_map g w)
    → ((g : ℕ → ℕ)
        → tally g reduce_jobs + held_reduce g w' ≡ tally g m.reduce_jobs + held_reduce g w)
    → Moved w m [] [] w' (record m { map_jobs = map_jobs; reduce_jobs = reduce_jobs })
unfolding tally
quiet w w' m map_jobs reduce_jobs maps reduces = record {
  maps = λ g. omega (arith, maps g);
  reduces = λ g. omega (arith, reduces g);
  maps_told = omega arith;
  reduces_told = omega arith;
  rest = same m;
}

stays : (w : Runner) (m : Master) → Moved w m [] [] w m
stays w m = quiet w w m m.map_jobs m.reduce_jobs (λ g. refl) (λ g. refl)

take_map-Moved :
    (jobs : List ℕ) (m : Master)
    → m.map_jobs ≡ jobs
    → Moved wants_map m [] [] (take_map jobs m).0 (take_map jobs m).1
unfolding take_map tally
take_map-Moved [] m e = stays wants_map m
take_map-Moved (j ∷ jobs) m e =
    quiet wants_map (calls_map j) m jobs m.reduce_jobs (λ g. rw e (omega arith)) (λ g. refl)

take_reduce-Moved :
    (jobs : List ℕ) (m : Master)
    → m.reduce_jobs ≡ jobs
    → Moved wants_reduce m [] [] (take_reduce jobs m).0 (take_reduce jobs m).1
unfolding take_reduce tally
take_reduce-Moved [] m e =
    quiet wants_reduce returned m m.map_jobs m.reduce_jobs (λ g. refl) (λ g. refl)
take_reduce-Moved (j ∷ jobs) m e =
    quiet wants_reduce (calls_reduce j) m m.map_jobs jobs (λ g. refl) (λ g. rw e (omega arith))

end_map-Moved :
    (j : ℕ) (ok : Bool) (m : Master)
    → Moved
        (calls_map j)
        m
        (map_ended (hears ok) (calls_map j))
        []
        (end_map j ok m).0
        (end_map j ok m).1
unfolding end_map tally
end_map-Moved j true m = record {
  maps = λ g. omega arith;
  reduces = λ g. omega arith;
  maps_told = omega arith;
  reduces_told = omega arith;
  rest = same m;
}
end_map-Moved j false m =
    quiet (calls_map j) returned m (m.map_jobs ++ j ∷ []) m.reduce_jobs
      (λ g. omega (arith, tally-append g m.map_jobs (j ∷ []))) (λ g. refl)

end_reduce-Moved :
    (j : ℕ) (ok : Bool) (m : Master)
    → Moved
        (calls_reduce j)
        m
        []
        (reduce_ended (hears ok) (calls_reduce j))
        (end_reduce j ok m).0
        (end_reduce j ok m).1
unfolding end_reduce tally
end_reduce-Moved j true m = record {
  maps = λ g. omega arith;
  reduces = λ g. omega arith;
  maps_told = omega arith;
  reduces_told = omega arith;
  rest = same m;
}
end_reduce-Moved j false m =
    quiet (calls_reduce j) returned m m.map_jobs (m.reduce_jobs ++ j ∷ []) (λ g. refl)
      (λ g. omega (arith, tally-append g m.reduce_jobs (j ∷ [])))

sees_start-Moved :
    (m : Master)
    → let r = if◌then◌else◌ {A = Runner × Master} m.reduce_start (wants_reduce, m) (wants_map, m) in
      Moved wants_map m [] [] r.0 r.1
sees_start-Moved m = elim (Bool-cases m.reduce_start) [
  | inl on ↦
      simp on (quiet wants_map wants_reduce m m.map_jobs m.reduce_jobs (λ g. refl) (λ g. refl))
  | inr off ↦ simp off (stays wants_map m)
]

pub run_worker-Moved :
    (move : Move) (w : Runner) (m : Master)
    → Moved w m
        (map_ended move w)
        (reduce_ended move w)
        (run_worker move w m).0
        (run_worker move w m).1
unfolding run_worker
run_worker-Moved takes_job wants_map m = take_map-Moved m.map_jobs m refl
run_worker-Moved sees_start wants_map m = sees_start-Moved m
run_worker-Moved (hears true) wants_map m = stays wants_map m
run_worker-Moved (hears false) wants_map m = stays wants_map m
run_worker-Moved takes_job (calls_map j) m = stays (calls_map j) m
run_worker-Moved sees_start (calls_map j) m = stays (calls_map j) m
run_worker-Moved (hears true) (calls_map j) m = end_map-Moved j true m
run_worker-Moved (hears false) (calls_map j) m = end_map-Moved j false m
run_worker-Moved takes_job wants_reduce m = take_reduce-Moved m.reduce_jobs m refl
run_worker-Moved sees_start wants_reduce m = stays wants_reduce m
run_worker-Moved (hears true) wants_reduce m = stays wants_reduce m
run_worker-Moved (hears false) wants_reduce m = stays wants_reduce m
run_worker-Moved takes_job (calls_reduce j) m = stays (calls_reduce j) m
run_worker-Moved sees_start (calls_reduce j) m = stays (calls_reduce j) m
run_worker-Moved (hears true) (calls_reduce j) m = end_reduce-Moved j true m
run_worker-Moved (hears false) (calls_reduce j) m = end_reduce-Moved j false m
run_worker-Moved takes_job returned m = stays returned m
run_worker-Moved sees_start returned m = stays returned m
run_worker-Moved (hears true) returned m = stays returned m
run_worker-Moved (hears false) returned m = stays returned m
