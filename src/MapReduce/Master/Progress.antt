-- ===== src/MapReduce/Master/Progress.antt =====
-- A run of project-3/src/mapreduce/master.go that has not finished has a step that lowers what is left to do.
use dsystem_homework.Base.{
  ℕ, ◌+◌, ◌<◌, ◌≡◌, refl, inl, inr, true, false, List, [], ◌∷◌, ◌++◌, length, arith,
}
use dsystem_homework.MapReduce.Master.{
  Runner, wants_map, calls_map, wants_reduce, calls_reduce, returned, takes_job, sees_start, hears,
  System, jobs_from,
}
use dsystem_homework.MapReduce.Master.Tally.{
  held_map, held_reduce, weigh, tally-length, jobs_from-length,
}
use dsystem_homework.MapReduce.Master.Order.{Inv}
use dsystem_homework.MapReduce.Master.Stalls.{running}
use dsystem_homework.MapReduce.Master.Due.{Due}
use dsystem_homework.MapReduce.Master.Advance.{
  Advance, advance, takes_job-Lightens_map, takes_job-Lightens_reduce, sees_start-Lightens,
  hears-Lightens_map, hears-Lightens_reduce, none_or_some, find,
}
use dsystem_homework.MapReduce.Master.Rounds.{count_maps, count_reduces, joins}

hear_map :
    (s : System) (front back : List Runner) (w : Runner)
    → s.runners ≡ front ++ (w ∷ back)
    → 0 < held_map (λ j. 1) w
    → Advance s
hear_map s front back (calls_map j) e some =
    advance s front back (calls_map j) (hears true) e (hears-Lightens_map j s.master)
hear_map s front back wants_map e some = absurd (omega arith)
hear_map s front back wants_reduce e some = absurd (omega arith)
hear_map s front back (calls_reduce j) e some = absurd (omega arith)
hear_map s front back returned e some = absurd (omega arith)

hear_reduce :
    (s : System) (front back : List Runner) (w : Runner)
    → s.runners ≡ front ++ (w ∷ back)
    → 0 < held_reduce (λ j. 1) w
    → Advance s
hear_reduce s front back (calls_reduce j) e some =
    advance s front back (calls_reduce j) (hears true) e (hears-Lightens_reduce j s.master)
hear_reduce s front back wants_map e some = absurd (omega arith)
hear_reduce s front back wants_reduce e some = absurd (omega arith)
hear_reduce s front back (calls_map j) e some = absurd (omega arith)
hear_reduce s front back returned e some = absurd (omega arith)

abbrev wanting_map : Runner → ℕ
wanting_map wants_map = 1
wanting_map _ = 0

abbrev wanting_reduce : Runner → ℕ
wanting_reduce wants_reduce = 1
wanting_reduce _ = 0

-- A worker at its first select takes a map job, or sees that there is none left.
want_map :
    (s : System) (front back : List Runner) (w : Runner)
    → s.runners ≡ front ++ (w ∷ back)
    → 0 < wanting_map w
    → (length s.master.map_jobs ≡ 0 → s.master.reduce_start ≡ true)
    → Advance s
want_map s front back wants_map e some last = elim (none_or_some (length s.master.map_jobs)) [
  | inl none ↦
      advance s front back wants_map sees_start e (sees_start-Lightens s.master (last none))
  | inr more ↦ advance s front back wants_map takes_job e (takes_job-Lightens_map s.master more)
]
want_map s front back (calls_map j) e some last = absurd (omega arith)
want_map s front back wants_reduce e some last = absurd (omega arith)
want_map s front back (calls_reduce j) e some last = absurd (omega arith)
want_map s front back returned e some last = absurd (omega arith)

want_reduce :
    (s : System) (front back : List Runner) (w : Runner)
    → s.runners ≡ front ++ (w ∷ back)
    → 0 < wanting_reduce w
    → 0 < length s.master.reduce_jobs
    → Advance s
want_reduce s front back wants_reduce e some more =
    advance s front back wants_reduce takes_job e (takes_job-Lightens_reduce s.master more)
want_reduce s front back (calls_map j) e some more = absurd (omega arith)
want_reduce s front back wants_map e some more = absurd (omega arith)
want_reduce s front back (calls_reduce j) e some more = absurd (omega arith)
want_reduce s front back returned e some more = absurd (omega arith)

running-split :
    (ws : List Runner)
    → weigh running ws
      ≡ weigh (held_map (λ j. 1)) ws
        + weigh (held_reduce (λ j. 1)) ws
        + weigh wanting_map ws
        + weigh wanting_reduce ws
unfolding weigh
running-split [] = refl
running-split (w ∷ ws) = omega (arith, one w, running-split ws)
  where
    one :
        (w : Runner)
        → running w
          ≡ held_map (λ j. 1) w + held_reduce (λ j. 1) w + wanting_map w + wanting_reduce w
    one wants_map = refl
    one (calls_map j) = refl
    one wants_reduce = refl
    one (calls_reduce j) = refl
    one returned = refl

-- The last map job that is done starts the reduce jobs, and the last reduce job ends the run.
all_maps :
    {n_map n_reduce : ℕ} (s : System)
    → Inv n_map n_reduce s
    → Due n_map n_reduce s.master
    → s.master.map_done ≡ 0
    → weigh (held_map (λ j. 1)) s.runners ≡ 0
    → length s.master.map_jobs ≡ 0
    → s.master.reduce_start ≡ true
all_maps {n_map} s inv (inl on, _, _, _) told held none = on
all_maps {n_map} s inv (inr more, _, _, _) told held none = absurd (
    omega (
      arith,
      inv.maps (λ j. 1),
      inv.maps_told,
      tally-length s.master.map_jobs,
      tally-length s.did_map,
      tally-length (jobs_from 0 n_map),
      jobs_from-length 0 n_map,
    ))

some_reduces :
    {n_map n_reduce : ℕ} (s : System)
    → Inv n_map n_reduce s
    → Due n_map n_reduce s.master
    → s.master.finished ≡ false
    → s.master.reduce_done ≡ 0
    → weigh (held_reduce (λ j. 1)) s.runners ≡ 0
    → 0 < length s.master.reduce_jobs
some_reduces s inv (_, inl ended, _, _) goes told held = absurd (cc (goes, ended))
some_reduces {n_reduce} s inv (_, inr more, _, _) goes told held = omega (
  arith,
  inv.reduces (λ j. 1),
  inv.reduces_told,
  tally-length s.master.reduce_jobs,
  tally-length s.did_reduce,
  tally-length (jobs_from 0 n_reduce),
  jobs_from-length 0 n_reduce,
)

-- With no signal waiting and no job with a worker: a worker takes a job, goes on, or registers.
advance_quiet :
    {n_map n_reduce : ℕ} (s : System)
    → Inv n_map n_reduce s
    → Due n_map n_reduce s.master
    → s.master.finished ≡ false
    → s.master.map_done ≡ 0
    → s.master.reduce_done ≡ 0
    → weigh (held_map (λ j. 1)) s.runners ≡ 0
    → weigh (held_reduce (λ j. 1)) s.runners ≡ 0
    → Advance s
advance_quiet s inv due goes no_map no_reduce free free' = elim (find wanting_map s.runners) [
  | inl f ↦ want_map s f.front f.back f.worker f.found f.counts (all_maps s inv due no_map free)
  | inr none ↦ elim (find wanting_reduce s.runners) [
    | inl f ↦
        want_reduce s f.front f.back f.worker f.found f.counts
          (some_reduces s inv due goes no_reduce free')
    | inr none' ↦ joins s goes (omega (arith, running-split s.runners, free, free', none, none'))
  ]
]

pub advance_unfinished :
    {n_map n_reduce : ℕ} (s : System)
    → Inv n_map n_reduce s
    → Due n_map n_reduce s.master
    → s.master.finished ≡ false
    → Advance s
advance_unfinished s inv due goes = elim (none_or_some s.master.map_done) [
  | inr some ↦ count_maps s goes some
  | inl no_map ↦ elim (none_or_some s.master.reduce_done) [
    | inr some ↦ count_reduces s goes some
    | inl no_reduce ↦ elim (find (held_map (λ j. 1)) s.runners) [
      | inl f ↦ hear_map s f.front f.back f.worker f.found f.counts
      | inr free ↦ elim (find (held_reduce (λ j. 1)) s.runners) [
        | inl f ↦ hear_reduce s f.front f.back f.worker f.found f.counts
        | inr free' ↦ advance_quiet s inv due goes no_map no_reduce free free'
      ]
    ]
  ]
]
