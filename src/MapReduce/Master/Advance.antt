-- ===== src/MapReduce/Master/Advance.antt =====
-- What is left to do in a run of project-3/src/mapreduce/master.go, as a number, and the steps that lower it.
use dsystem_homework.Base.{
  ℕ, zero, suc, ◌+◌, ◌*◌, ◌<◌, ◌≡◌, ◌⊎◌, refl, inl, inr, true, List, [], ◌∷◌, ◌++◌, length, arith,
}
use dsystem_homework.MapReduce.Master.{
  Master, Runner, wants_map, calls_map, wants_reduce, calls_reduce, returned, Move, takes_job,
  sees_start, hears, take_map, take_reduce, end_map, end_reduce, run_worker, System, Step, moves,
}
use dsystem_homework.MapReduce.Master.Tally.{weigh, weigh-append}
use dsystem_homework.MapReduce.Master.Stalls.{running}

-- The steps that a job needs from its channel on, its signal included.
abbrev pub load : Master → ℕ
load m = 4 * length m.map_jobs + 3 * length m.reduce_jobs + m.map_done + m.reduce_done

abbrev pub weight : Runner → ℕ
weight wants_map = 1
weight (calls_map j) = 3
weight wants_reduce = 0
weight (calls_reduce j) = 2
weight returned = 0

-- Without a running worker one has to register.
unfoldable pub idle : ℕ → ℕ
idle zero = 2
idle (suc n) = 0

abbrev pub left_over : System → ℕ
left_over s = load s.master + weigh weight s.runners + idle (weigh running s.runners)

idle-running : (n : ℕ) → 0 < n → idle n ≡ 0
unfolding idle
idle-running zero some = absurd (omega arith)
idle-running (suc n) some = refl

pub idle-same : (n k : ℕ) → k ≡ 0 → idle (n + k) ≡ idle n
idle-same n k none = let same : n + k ≡ n = omega (arith, none) in rw same refl

abbrev pub Advance : System → Type 0
Advance s = (t : System) × Step s t × (left_over t < left_over s)

-- A step of a worker that goes on.
abbrev pub Lightens : Move → Runner → Master → Type 0
Lightens move w m =
    let (w', m') = run_worker move w m in
    (load m' + weight w' < load m + weight w) × (0 < running w')

pub advance :
    (s : System) (front back : List Runner) (w : Runner) (move : Move)
    → s.runners ≡ front ++ (w ∷ back)
    → Lightens move w s.master
    → Advance s
unfolding weigh
advance s front back w move e (lighter, runs) =
    let w' = (run_worker move w s.master).0 in
    let before : weigh weight s.runners ≡ weigh weight front + (weight w + weigh weight back) =
      rw e (weigh-append weight front (w ∷ back)) in
    let after = weigh-append weight front (w' ∷ back) in
    let runs' = weigh-append running front (w' ∷ back) in
    (
      _,
      moves front back w move e,
      omega (
        arith,
        lighter,
        before,
        after,
        idle-running (weigh running (front ++ (w' ∷ back))) (omega (arith, runs, runs')),
      ),
    )

take_map-lightens :
    (jobs : List ℕ) (m : Master)
    → m.map_jobs ≡ jobs
    → 0 < length jobs
    → (load (take_map jobs m).1 + weight (take_map jobs m).0 < load m + 1)
      × (0 < running (take_map jobs m).0)
unfolding take_map
take_map-lightens [] m e some = absurd (omega arith)
take_map-lightens (j ∷ jobs) m e some = (rw e (omega arith), omega arith)

take_reduce-lightens :
    (jobs : List ℕ) (m : Master)
    → m.reduce_jobs ≡ jobs
    → 0 < length jobs
    → (load (take_reduce jobs m).1 + weight (take_reduce jobs m).0 < load m + 0)
      × (0 < running (take_reduce jobs m).0)
unfolding take_reduce
take_reduce-lightens [] m e some = absurd (omega arith)
take_reduce-lightens (j ∷ jobs) m e some = (rw e (omega arith), omega arith)

pub takes_job-Lightens_map : (m : Master) → 0 < length m.map_jobs → Lightens takes_job wants_map m
unfolding run_worker
takes_job-Lightens_map m some = take_map-lightens m.map_jobs m refl some

pub takes_job-Lightens_reduce :
    (m : Master) → 0 < length m.reduce_jobs → Lightens takes_job wants_reduce m
unfolding run_worker
takes_job-Lightens_reduce m some = take_reduce-lightens m.reduce_jobs m refl some

pub sees_start-Lightens : (m : Master) → m.reduce_start ≡ true → Lightens sees_start wants_map m
unfolding run_worker
sees_start-Lightens m on = simp on (omega arith, omega arith)

pub hears-Lightens_map : (j : ℕ) (m : Master) → Lightens (hears true) (calls_map j) m
unfolding run_worker end_map
hears-Lightens_map j m = (omega arith, omega arith)

pub hears-Lightens_reduce : (j : ℕ) (m : Master) → Lightens (hears true) (calls_reduce j) m
unfolding run_worker end_reduce
hears-Lightens_reduce j m = (omega arith, omega arith)

-- A worker as it is in a list of workers.
pub record Found (h : Runner → ℕ) (ws : List Runner) : Type 0 where
  pub front : List Runner
  pub worker : Runner
  pub back : List Runner
  pub found : ws ≡ front ++ (worker ∷ back)
  pub counts : 0 < h worker

pub none_or_some : (n : ℕ) → (n ≡ 0) ⊎ (0 < n)
none_or_some zero = inl refl
none_or_some (suc n) = inr (omega arith)

pub find : (h : Runner → ℕ) (ws : List Runner) → Found h ws ⊎ (weigh h ws ≡ 0)
unfolding weigh
find h [] = inr refl
find h (w ∷ ws) = elim (none_or_some (h w)) [
  | inl none ↦ elim (find h ws) [
    | inl f ↦ inl (record {
      front = w ∷ f.front;
      worker = f.worker;
      back = f.back;
      found = rw f.found refl;
      counts = f.counts;
    })
    | inr rest ↦ inr (omega (arith, none, rest))
  ]
  | inr some ↦ inl (record { front = []; worker = w; back = ws; found = refl; counts = some })
]
