-- ===== src/MapReduce/Worker/Reports.antt =====
-- What `Shutdown` of project-3/src/mapreduce/worker.go reports.
use dsystem_homework.Base.{
  ℕ, zero, suc, ◌+◌, ◌≡◌, refl, ◌∙◌, ap, Bool, true, false, List, [], ◌∷◌, ℤ, pos, All, subst,
  arith, Bool-cases, inl, inr, int_beq,
}
use dsystem_homework.MapReduce.Worker.{
  Place, at_test, at_accept, at_count, at_end, Worker, new_worker, Event, loops, does_job,
  shuts_down, inc, loop_at, handle_job, handle_shutdown, step, run,
}

-- The jobs that a worker does.
abbrev jobs_done : Event → Worker → ℕ
jobs_done does_job w = elim w.waiting [ zero ↦ 0 | suc n ↦ 1 ]
jobs_done _ w = 0

unfoldable pub jobs : List Event → Worker → ℕ
jobs [] w = 0
jobs (e ∷ events) w = jobs_done e w + jobs events (step e w).0

abbrev pub is_shutdown : Event → Bool
is_shutdown shuts_down = true
is_shutdown _ = false

-- A connection that is accepted and not counted yet.
abbrev pub uncounted : Place → ℕ
uncounted at_count = 1
uncounted _ = 0

-- The counter has the jobs that are done and the connections that wait, but for one not counted yet.
record HasCounted (done : ℕ) (w : Worker) : Type 0 where
  pub number : ℕ
  pub n_jobs_is : w.n_jobs ≡ pos number
  pub counts : number + uncounted w.place ≡ done + w.waiting

loop_at-HasCounted :
    (place : Place) (ok : Bool) (done : ℕ) (w : Worker)
    → w.place ≡ place
    → HasCounted done w
    → HasCounted done (loop_at place ok w)
unfolding loop_at
loop_at-HasCounted at_test ok done w stands h =
    let plain : h.number + 0 ≡ done + w.waiting = rw stands at h.counts in
    elim (Bool-cases (int_beq w.n_rpc (pos 0))) [
      | inl ends ↦
          simp ends
            (record { number = h.number; n_jobs_is = h.n_jobs_is; counts = omega (arith, plain) })
      | inr goes ↦
          simp goes
            (record { number = h.number; n_jobs_is = h.n_jobs_is; counts = omega (arith, plain) })
    ]
loop_at-HasCounted at_accept true done w stands h =
    let plain : h.number + 0 ≡ done + w.waiting = rw stands at h.counts in
    record { number = h.number; n_jobs_is = h.n_jobs_is; counts = omega (arith, plain) }
loop_at-HasCounted at_accept false done w stands h =
    let plain : h.number + 0 ≡ done + w.waiting = rw stands at h.counts in
    record { number = h.number; n_jobs_is = h.n_jobs_is; counts = omega (arith, plain) }
loop_at-HasCounted at_count ok done w stands h =
    let plain : h.number + 1 ≡ done + w.waiting = rw stands at h.counts in
    record {
      number = suc h.number;
      n_jobs_is = ap inc h.n_jobs_is ∙ ground arith;
      counts = omega (arith, plain);
    }
loop_at-HasCounted at_end ok done w stands h = h

handle_job-HasCounted :
    (waiting : ℕ) (done : ℕ) (w : Worker)
    → w.waiting ≡ waiting
    → HasCounted done w
    → HasCounted (jobs_done does_job w + done) (handle_job waiting w)
unfolding handle_job
handle_job-HasCounted zero done w stands h = record {
  number = h.number;
  n_jobs_is = h.n_jobs_is;
  counts = rw stands (omega (arith, h.counts));
}
handle_job-HasCounted (suc waiting) done w stands h = record {
  number = h.number;
  n_jobs_is = h.n_jobs_is;
  counts = rw stands (omega (arith, h.counts));
}

recount : {m n : ℕ} {w : Worker} → HasCounted m w → m ≡ n → HasCounted n w
recount {w} h same = subst (λ k. HasCounted k w) same h

told-handle_shutdown :
    (waiting : ℕ) (w : Worker) → waiting ≡ 1 → (handle_shutdown waiting w).1 ≡ w.n_jobs ∷ []
unfolding handle_shutdown
told-handle_shutdown zero w one_waits = absurd (omega arith)
told-handle_shutdown (suc waiting) w one_waits = refl

run-HasCounted :
    (events : List Event) (done : ℕ) (w : Worker)
    → All (λ e. is_shutdown e ≡ false) events
    → HasCounted done w
    → HasCounted (jobs events w + done) (run events w).0
unfolding jobs run step
run-HasCounted [] done w quiet h = recount h (omega arith)
run-HasCounted (loops ok ∷ events) done w (calm, quiet) h =
    recount
      (run-HasCounted events done (loop_at w.place ok w) quiet
        (loop_at-HasCounted w.place ok done w refl h))
      (omega arith)
run-HasCounted (does_job ∷ events) done w (calm, quiet) h =
    recount
      (run-HasCounted events (jobs_done does_job w + done) (handle_job w.waiting w) quiet
        (handle_job-HasCounted w.waiting done w refl h))
      (omega arith)
run-HasCounted (shuts_down ∷ events) done w (calm, quiet) h = cc

-- When a worker has served no Shutdown, the loop is not about to count a connection, and the only one
-- that waits is that of a Shutdown, the Shutdown reports one more than the jobs that the worker did.
pub shutdown_counts_itself :
    (n_rpc : ℤ) (events : List Event)
    → All (λ e. is_shutdown e ≡ false) events
    → (run events (new_worker n_rpc)).0.waiting ≡ 1
    → uncounted (run events (new_worker n_rpc)).0.place ≡ 0
    → (step shuts_down (run events (new_worker n_rpc)).0).1
      ≡ pos (suc (jobs events (new_worker n_rpc))) ∷ []
unfolding new_worker step
shutdown_counts_itself n_rpc events quiet one_waits counted =
    let h =
      run-HasCounted events 0 (new_worker n_rpc) quiet
        (record { number = 0; n_jobs_is = refl; counts = refl }) in
    let last = (run events (new_worker n_rpc)).0 in
    let number : h.number ≡ suc (jobs events (new_worker n_rpc)) =
      omega (arith, h.counts, one_waits, counted) in
    told-handle_shutdown last.waiting last one_waits
    ∙ ap (λ n. n ∷ []) (h.n_jobs_is ∙ ap pos number)
