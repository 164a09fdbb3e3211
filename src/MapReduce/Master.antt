-- ===== src/MapReduce/Master.antt =====
-- project-3/src/mapreduce: `InitMapReduce` of mapreduce.go, and `RunMaster` and `RunWorker` of
-- master.go. The master's goroutine and one goroutine for each worker share the channels of jobs. A
-- channel of jobs or of signals has a place for each job, so no send on it waits.
pub mod Tally
pub mod Keeps
pub mod Order
pub mod Phases
pub mod Started
pub mod Stalls
pub mod Due
pub mod Advance
pub mod Rounds
pub mod Progress
pub mod Finishes
mod Tests
use dsystem_homework.Base.{
  ℕ, zero, suc, ◌+◌, ◌≡◌, Bool, true, false, nat_beq, List, [], ◌∷◌, ◌++◌, if◌then◌else◌, ◌||◌,
}

pub record Master : Type 0 where
  pub n_map : ℕ
  pub n_reduce : ℕ
  pub map_jobs : List ℕ
  pub map_done : ℕ  -- signals on the channel `mapDone`
  pub reduce_start : Bool  -- the channel is closed
  pub reduce_jobs : List ℕ
  pub reduce_done : ℕ  -- signals on the channel `reduceDone`
  pub maps_counted : ℕ  -- the local variable `mapDone` of `RunMaster`
  pub reduces_counted : ℕ  -- the local variable `reduceDone`
  pub finished : Bool  -- `RunMaster` has called `KillWorkers`

-- The jobs that the loops of `InitMapReduce` send: the numbers from `i` on.
unfoldable pub jobs_from : ℕ → ℕ → List ℕ
jobs_from i zero = []
jobs_from i (suc n) = i ∷ jobs_from (suc i) n

unfoldable pub init_map_reduce : ℕ → ℕ → Master
init_map_reduce n_map n_reduce = record {
  n_map = n_map;
  n_reduce = n_reduce;
  map_jobs = jobs_from 0 n_map;
  map_done = 0;
  reduce_start = false;
  reduce_jobs = jobs_from 0 n_reduce;
  reduce_done = 0;
  maps_counted = 0;
  reduces_counted = 0;
  finished = false;
}

-- Where the goroutine of a worker stands: at one of its selects, in a call of a job, or returned.
pub data Runner : Type 0 where
  wants_map : Runner
  calls_map : ℕ → Runner
  wants_reduce : Runner
  calls_reduce : ℕ → Runner
  returned : Runner

-- What the goroutine of a worker does next: the case of jobs (in its second loop the default, if
-- there are none), the case of `reduceStart`, or the return of its call, with `ok && reply.OK`.
pub data Move : Type 0 where
  takes_job sees_start : Move
  hears : Bool → Move

take_map : List ℕ → Master → Runner × Master
take_map [] m = (wants_map, m)
take_map (j ∷ jobs) m = (calls_map j, record m { map_jobs = jobs })

take_reduce : List ℕ → Master → Runner × Master
take_reduce [] m = (returned, m)
take_reduce (j ∷ jobs) m = (calls_reduce j, record m { reduce_jobs = jobs })

end_map : ℕ → Bool → Master → Runner × Master
end_map j true m = (wants_map, record m { map_done = suc m.map_done })
end_map j false m = (returned, record m { map_jobs = m.map_jobs ++ j ∷ [] })

end_reduce : ℕ → Bool → Master → Runner × Master
end_reduce j true m = (wants_reduce, record m { reduce_done = suc m.reduce_done })
end_reduce j false m = (returned, record m { reduce_jobs = m.reduce_jobs ++ j ∷ [] })

-- A step of `RunWorker`; a case that is not ready is not taken.
unfoldable pub run_worker : Move → Runner → Master → Runner × Master
unfolding take_map take_reduce end_map end_reduce
run_worker takes_job wants_map m = take_map m.map_jobs m
run_worker sees_start wants_map m = if m.reduce_start then (wants_reduce, m) else (wants_map, m)
run_worker (hears ok) wants_map m = (wants_map, m)
run_worker takes_job (calls_map j) m = (calls_map j, m)
run_worker sees_start (calls_map j) m = (calls_map j, m)
run_worker (hears ok) (calls_map j) m = end_map j ok m
run_worker takes_job wants_reduce m = take_reduce m.reduce_jobs m
run_worker sees_start wants_reduce m = (wants_reduce, m)
run_worker (hears ok) wants_reduce m = (wants_reduce, m)
run_worker takes_job (calls_reduce j) m = (calls_reduce j, m)
run_worker sees_start (calls_reduce j) m = (calls_reduce j, m)
run_worker (hears ok) (calls_reduce j) m = end_reduce j ok m
run_worker move returned m = (returned, m)

-- The case that the `select` of `RunMaster` takes.
pub data Case : Type 0 where
  from_register from_map_done from_reduce_done : Case

count_map : ℕ → Master → Master
count_map zero m = m
count_map (suc n) m = record m {
  map_done = n;
  maps_counted = suc m.maps_counted;
  reduce_start = nat_beq (suc m.maps_counted) m.n_map || m.reduce_start;
}

count_reduce : ℕ → Master → Master
count_reduce zero m = m
count_reduce (suc n) m = record m {
  reduce_done = n;
  reduces_counted = suc m.reduces_counted;
  finished = nat_beq (suc m.reduces_counted) m.n_reduce;
}

-- A round of `RunMaster`, with the goroutines that it starts.
master_round : Case → Master → Master × List Runner
unfolding count_map count_reduce
master_round from_register m = (m, wants_map ∷ [])
master_round from_map_done m = (count_map m.map_done m, [])
master_round from_reduce_done m = (count_reduce m.reduce_done m, [])

unfoldable pub run_master : Case → Master → Master × List Runner
unfolding master_round
run_master c m = if m.finished then (m, []) else master_round c m

-- The whole system, with the numbers of the jobs for which a worker has answered that it did them.
pub record System : Type 0 where
  pub master : Master
  pub runners : List Runner
  pub did_map : List ℕ
  pub did_reduce : List ℕ

unfoldable pub start : ℕ → ℕ → System
start n_map n_reduce = record {
  master = init_map_reduce n_map n_reduce;
  runners = [];
  did_map = [];
  did_reduce = [];
}

-- The job that a move ends.
abbrev pub map_ended : Move → Runner → List ℕ
map_ended (hears true) (calls_map j) = j ∷ []
map_ended _ _ = []

abbrev pub reduce_ended : Move → Runner → List ℕ
reduce_ended (hears true) (calls_reduce j) = j ∷ []
reduce_ended _ _ = []

pub data Step (s : System) : System → Type 0 where
  moves :
      (front back : List Runner) (w : Runner) (move : Move)
      → s.runners ≡ front ++ (w ∷ back)
      → Step s (record {
        master = (run_worker move w s.master).1;
        runners = front ++ ((run_worker move w s.master).0 ∷ back);
        did_map = s.did_map ++ map_ended move w;
        did_reduce = s.did_reduce ++ reduce_ended move w;
      })
  masters :
      (c : Case)
      → Step s (record s {
        master = (run_master c s.master).0;
        runners = s.runners ++ (run_master c s.master).1;
      })

pub data Reach (s : System) : System → Type 0 where
  here : Reach s s
  next : {t u : System} → Reach s t → Step t u → Reach s u
