-- ===== src/MapReduce/Master/Rounds.antt =====
-- The rounds of the master in project-3/src/mapreduce/master.go that lower what is left to do.
use dsystem_homework.Base.{ℕ, zero, suc, ◌+◌, ◌<◌, ◌≡◌, refl, false, arith}
use dsystem_homework.MapReduce.Master.{
  Master, Case, from_register, from_map_done, from_reduce_done, count_map, count_reduce,
  master_round, run_master, System, masters,
}
use dsystem_homework.MapReduce.Master.Tally.{weigh, weigh-append}
use dsystem_homework.MapReduce.Master.Stalls.{running}
use dsystem_homework.MapReduce.Master.Advance.{load, weight, idle, Advance, idle-same}

count_map-lightens : (n : ℕ) (m : Master) → m.map_done ≡ n → 0 < n → load (count_map n m) < load m
unfolding count_map
count_map-lightens zero m e some = absurd (omega arith)
count_map-lightens (suc n) m e some = omega (arith, e)

count_reduce-lightens :
    (n : ℕ) (m : Master) → m.reduce_done ≡ n → 0 < n → load (count_reduce n m) < load m
unfolding count_reduce
count_reduce-lightens zero m e some = absurd (omega arith)
count_reduce-lightens (suc n) m e some = omega (arith, e)

run_master-goes : (c : Case) (m : Master) → m.finished ≡ false → run_master c m ≡ master_round c m
unfolding run_master
run_master-goes c m goes = simp goes refl

-- A round of the master that goes on.
rounds :
    (s : System) (c : Case)
    → s.master.finished ≡ false
    → (let (m, new) = master_round c s.master in
        load m + weigh weight new + idle (weigh running s.runners + weigh running new)
        < load s.master + idle (weigh running s.runners))
    → Advance s
rounds s c goes lighter =
    let (m, new) = master_round c s.master in
    (
      _,
      masters c,
      rw (run_master-goes c s.master goes) (
          rw (weigh-append running s.runners new)
            (omega (arith, lighter, weigh-append weight s.runners new))),
    )

pub count_maps : (s : System) → s.master.finished ≡ false → 0 < s.master.map_done → Advance s
unfolding master_round weigh
count_maps s goes some = rounds s from_map_done goes (
    omega (
      arith,
      count_map-lightens s.master.map_done s.master refl some,
      idle-same (weigh running s.runners) (weigh running (master_round from_map_done s.master).1)
          refl,
    ))

pub count_reduces : (s : System) → s.master.finished ≡ false → 0 < s.master.reduce_done → Advance s
unfolding master_round weigh
count_reduces s goes some = rounds s from_reduce_done goes (
    omega (
      arith,
      count_reduce-lightens s.master.reduce_done s.master refl some,
      idle-same (weigh running s.runners) (weigh running (master_round from_reduce_done s.master).1)
          refl,
    ))

-- A worker registers when none is left.
pub joins : (s : System) → s.master.finished ≡ false → weigh running s.runners ≡ 0 → Advance s
unfolding master_round weigh idle
joins s goes none = rounds s from_register goes (rw none (omega arith))
