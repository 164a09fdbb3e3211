-- ===== src/MapReduce/Master/Order.antt =====
-- What every step of the master and the workers of project-3/src/mapreduce/master.go keeps.
use dsystem_homework.Base.{
  ℕ, zero, suc, ◌+◌, ◌≤◌, ◌≡◌, ◌⊎◌, refl, sym, ◌∙◌, inl, inr, true, false, nat_beq, List, [], ◌∷◌,
  ◌++◌, length, length-append, ◌||◌, arith, Bool-cases,
}
use dsystem_homework.MapReduce.Master.{
  Master, jobs_from, init_map_reduce, Runner, wants_map, Move, run_worker, Case, from_register,
  from_map_done, from_reduce_done, count_map, count_reduce, master_round, run_master, System, start,
  map_ended, reduce_ended, moves, masters, Reach, here, next,
}
use dsystem_homework.MapReduce.Master.Tally.{
  tally, held_map, held_reduce, weigh, tally-append, weigh-append,
}
use dsystem_homework.MapReduce.Master.Keeps.{run_worker-Moved}

pub record Inv (n_map n_reduce : ℕ) (s : System) : Type 0 where
  pub maps :
      (g : ℕ → ℕ)
      → tally g s.master.map_jobs + weigh (held_map g) s.runners + tally g s.did_map
        ≡ tally g (jobs_from 0 n_map)
  pub reduces :
      (g : ℕ → ℕ)
      → tally g s.master.reduce_jobs + weigh (held_reduce g) s.runners + tally g s.did_reduce
        ≡ tally g (jobs_from 0 n_reduce)
  pub maps_told : s.master.maps_counted + s.master.map_done ≡ length s.did_map
  pub reduces_told : s.master.reduces_counted + s.master.reduce_done ≡ length s.did_reduce
  pub started : s.master.reduce_start ≡ true → n_map ≤ s.master.maps_counted
  pub ended : s.master.finished ≡ true → n_reduce ≤ s.master.reduces_counted
  pub size_map : s.master.n_map ≡ n_map
  pub size_reduce : s.master.n_reduce ≡ n_reduce

module _ {N R : ℕ} where
  moved-Inv :
      (s : System) (front back : List Runner) (w : Runner) (move : Move)
      → s.runners ≡ front ++ (w ∷ back)
      → Inv N R s
      → Inv N R (record {
        master = (run_worker move w s.master).1;
        runners = front ++ ((run_worker move w s.master).0 ∷ back);
        did_map = s.did_map ++ map_ended move w;
        did_reduce = s.did_reduce ++ reduce_ended move w;
      })
  unfolding weigh
  moved-Inv s front back w move e inv =
      let moved = run_worker-Moved move w s.master in
      let w' = (run_worker move w s.master).0 in
      let (start_same, counted_same, reduced_same, finished_same, n_same, r_same) = moved.rest in
      let before : (h : Runner → ℕ) → weigh h s.runners ≡ weigh h front + (h w + weigh h back) =
        λ h. rw e (weigh-append h front (w ∷ back)) in
      record {
        maps = λ g. omega (
          arith,
          inv.maps g,
          moved.maps g,
          before (held_map g),
          weigh-append (held_map g) front (w' ∷ back),
          tally-append g s.did_map (map_ended move w),
        );
        reduces = λ g. omega (
          arith,
          inv.reduces g,
          moved.reduces g,
          before (held_reduce g),
          weigh-append (held_reduce g) front (w' ∷ back),
          tally-append g s.did_reduce (reduce_ended move w),
        );
        maps_told = omega (
          arith,
          inv.maps_told,
          moved.maps_told,
          counted_same,
          length-append s.did_map (map_ended move w),
        );
        reduces_told = omega (
          arith,
          inv.reduces_told,
          moved.reduces_told,
          reduced_same,
          length-append s.did_reduce (reduce_ended move w),
        );
        started = λ on. omega (arith, counted_same, inv.started (sym start_same ∙ on));
        ended = λ off. omega (arith, reduced_same, inv.ended (sym finished_same ∙ off));
        size_map = n_same ∙ inv.size_map;
        size_reduce = r_same ∙ inv.size_reduce;
      }

  -- A round of the master leaves the jobs and what is done alone.
  counted-Inv :
      (s : System) (m : Master) (new : List Runner)
      → Inv N R s
      → m.map_jobs ≡ s.master.map_jobs
      → m.reduce_jobs ≡ s.master.reduce_jobs
      → m.n_map ≡ s.master.n_map
      → m.n_reduce ≡ s.master.n_reduce
      → m.maps_counted + m.map_done ≡ s.master.maps_counted + s.master.map_done
      → m.reduces_counted + m.reduce_done ≡ s.master.reduces_counted + s.master.reduce_done
      → ((g : ℕ → ℕ) → weigh (held_map g) new ≡ 0)
      → ((g : ℕ → ℕ) → weigh (held_reduce g) new ≡ 0)
      → (m.reduce_start ≡ true → N ≤ m.maps_counted)
      → (m.finished ≡ true → R ≤ m.reduces_counted)
      → Inv N R (record s { master = m; runners = s.runners ++ new })
  counted-Inv s m new inv mj rj nm nr mt rt free free' started ended = record {
    maps = λ g. rw mj (omega (arith, inv.maps g, weigh-append (held_map g) s.runners new, free g));
    reduces = λ g.
        rw rj (omega (arith, inv.reduces g, weigh-append (held_reduce g) s.runners new, free' g));
    maps_told = omega (arith, mt, inv.maps_told);
    reduces_told = omega (arith, rt, inv.reduces_told);
    started = started;
    ended = ended;
    size_map = nm ∙ inv.size_map;
    size_reduce = nr ∙ inv.size_reduce;
  }

  count_map-Inv :
      (n : ℕ) (s : System)
      → s.master.map_done ≡ n
      → Inv N R s
      → Inv N R (record s { master = count_map n s.master; runners = s.runners ++ [] })
  unfolding count_map weigh
  count_map-Inv zero s e inv =
      counted-Inv s s.master [] inv refl refl refl refl refl refl (λ g. refl) (λ g. refl)
        inv.started inv.ended
  count_map-Inv (suc n) s e inv =
      counted-Inv s (count_map (suc n) s.master) [] inv refl refl refl refl (omega arith) refl
        (λ g. refl) (λ g. refl) (λ on. reached on (Bool-cases s.master.reduce_start)) inv.ended
    where
      reached :
          (nat_beq (suc s.master.maps_counted) s.master.n_map || s.master.reduce_start) ≡ true
          → (s.master.reduce_start ≡ true) ⊎ (s.master.reduce_start ≡ false)
          → N ≤ suc s.master.maps_counted
      reached on (inl before) = omega (arith, inv.started before)
      reached on (inr now) = ground (arith, inv.size_map)

  count_reduce-Inv :
      (n : ℕ) (s : System)
      → s.master.reduce_done ≡ n
      → Inv N R s
      → Inv N R (record s { master = count_reduce n s.master; runners = s.runners ++ [] })
  unfolding count_reduce weigh
  count_reduce-Inv zero s e inv =
      counted-Inv s s.master [] inv refl refl refl refl refl refl (λ g. refl) (λ g. refl)
        inv.started inv.ended
  count_reduce-Inv (suc n) s e inv =
      counted-Inv s (count_reduce (suc n) s.master) [] inv refl refl refl refl refl (omega arith)
        (λ g. refl) (λ g. refl) inv.started (λ off. ground (arith, inv.size_reduce, off))

  master_round-Inv :
      (c : Case) (s : System)
      → Inv N R s
      → Inv N R (record s {
        master = (master_round c s.master).0;
        runners = s.runners ++ (master_round c s.master).1;
      })
  unfolding master_round weigh
  master_round-Inv from_register s inv =
      counted-Inv s s.master (wants_map ∷ []) inv refl refl refl refl refl refl (λ g. omega arith)
        (λ g. omega arith) inv.started inv.ended
  master_round-Inv from_map_done s inv = count_map-Inv s.master.map_done s refl inv
  master_round-Inv from_reduce_done s inv = count_reduce-Inv s.master.reduce_done s refl inv

  run_master-Inv :
      (c : Case) (s : System)
      → Inv N R s
      → Inv N R (record s {
        master = (run_master c s.master).0;
        runners = s.runners ++ (run_master c s.master).1;
      })
  unfolding run_master weigh
  run_master-Inv c s inv = elim (Bool-cases s.master.finished) [
    | inl off ↦ simp off (
        counted-Inv s s.master [] inv refl refl refl refl refl refl (λ g. refl) (λ g. refl)
          inv.started inv.ended)
    | inr on ↦ simp on (master_round-Inv c s inv)
  ]

  pub Reach-Inv : {s t : System} → Reach s t → Inv N R s → Inv N R t
  Reach-Inv here inv = inv
  Reach-Inv (next r (moves front back w move e)) inv =
      moved-Inv _ front back w move e (Reach-Inv r inv)
  Reach-Inv (next r (masters c)) inv = run_master-Inv c _ (Reach-Inv r inv)

pub start-Inv : (n_map n_reduce : ℕ) → Inv n_map n_reduce (start n_map n_reduce)
unfolding start init_map_reduce tally weigh
start-Inv n_map n_reduce = record {
  maps = λ g. omega arith;
  reduces = λ g. omega arith;
  maps_told = refl;
  reduces_told = refl;
  started = λ on. cc on;
  ended = λ off. cc off;
  size_map = refl;
  size_reduce = refl;
}
