-- ===== src/Lifecycle/Health/Checking/Ends.antt =====
-- lifecycle/health.go: a `Check` comes to its end without a time-out.
use quickgo.Prelude.{
  ℕ, zero, suc, ◌+◌, ◌≤◌, ◌<◌, ◌≡◌, inl, inr, refl, sym, subst, ltb, ltb→lt, lt→ltb, some, List, [],
  ◌∷◌, String, arith, length, get_elem?, Bool-cases,
}
use quickgo.Prelude.Counts.{times}
use quickgo.Lifecycle.Health.{HealthResult, HealthChecker, Ending}
use quickgo.Lifecycle.Health.Checking.{
  Worker, idle, waiting, running, ready, sending, Checking, Op, taking, acquiring, answering,
  receiving, delivering, collecting, leaving_slot, next_job, take_job, acquire_slot, answer,
  receive, deliver, collect_sent, leave_slot, worker_count, start, step, run,
}
use quickgo.Lifecycle.Health.Checking.Accounts.{is_running, is_busy, among, results_of, work, Sound}
use quickgo.Lifecycle.Health.Checking.Steps.{step-Sound, run-Sound}
use quickgo.Lifecycle.Health.Checking.Runs.{start-run-Sound, results_of-work}
use quickgo.Lifecycle.Health.Checking.Progress.{
  ArePatient, weight, effort, Nearer, Goes, at_work, idle-first, by_leaving, by_job, by_slot,
  by_answer, by_receive, by_delivery, by_collecting, busy_worker,
}

module _ {V : Type 0} (name : String) (n staff slots : ℕ) (answer_to : String → Ending V) where
  move_on_running :
      (k : ℕ) (w : Worker V) (c : Checking V)
      → get_elem? c.workers k ≡ some w
      → 1 ≤ is_running w
      → Goes answer_to c
  unfolding step
  move_on_running k idle c e h = absurd (omega arith)
  move_on_running k (waiting job) c e h = absurd (omega arith)
  move_on_running k (running job) c e h = (
    answering k (answer_to job),
    (job, refl),
    subst (λ w. Nearer c (answer k (answer_to job) w c)) (sym e)
        (by_answer k job (answer_to job) c e),
  )
  move_on_running k (ready job a) c e h = absurd (omega arith)
  move_on_running k (sending job r) c e h = absurd (omega arith)

  move_on_waiting :
      (k : ℕ) (job : String) (c : Checking V)
      → Sound name n staff slots c
      → 1 ≤ c.slots
      → c.leaving ≡ 0
      → get_elem? c.workers k ≡ some (waiting job)
      → Goes answer_to c
  unfolding step
  move_on_waiting k job c s slot left e = elim (Bool-cases (ltb c.used c.slots)) [
    | inl free ↦ (
      acquiring k,
      refl,
      subst (λ w. Nearer c (acquire_slot k w c)) (sym e) (by_slot k job c e free),
    )
    | inr full ↦ elim (at_work is_running c.workers) [
      | inl none_runs ↦ absurd (ground (arith, full, s.held, none_runs, left, slot))
      | inr (j, w, at, h) ↦ move_on_running j w c at h
    ]
  ]

  move_on_worker :
      (k : ℕ) (w : Worker V) (c : Checking V)
      → Sound name n staff slots c
      → 1 ≤ c.slots
      → c.leaving ≡ 0
      → get_elem? c.workers k ≡ some w
      → 1 ≤ weight w
      → Goes answer_to c
  unfolding step
  move_on_worker k idle c s slot left e h = absurd (omega arith)
  move_on_worker k (waiting job) c s slot left e h = move_on_waiting k job c s slot left e
  move_on_worker k (running job) c s slot left e h =
      move_on_running k (running job) c e (omega arith)
  move_on_worker k (ready job a) c s slot left e h =
      (receiving k, refl, subst (λ w. Nearer c (receive k w c)) (sym e) (by_receive k job a c e))
  move_on_worker k (sending job r) c s slot left e h =
      let busy = busy_worker is_busy c.workers k (sending job r) e in
      let room : length c.sent < c.capacity = omega (arith, s.fits, busy) in
      (
        delivering k,
        refl,
        subst (λ w. Nearer c (deliver k w c)) (sym e)
            (by_delivery k job r c e (lt→ltb (length c.sent) c.capacity room)),
      )

  move_on_idle :
      (jobs : List String) (sent : List (String × HealthResult V)) (c : Checking V)
      → c.jobs ≡ jobs
      → c.sent ≡ sent
      → 1 ≤ length c.workers
      → times weight c.workers ≡ 0
      → 1 ≤ length jobs + length sent
      → Goes answer_to c
  unfolding step take_job
  move_on_idle [] [] c same same' staffed e h = absurd (omega arith)
  move_on_idle [] (r ∷ sent) c same same' staffed e h = (
    collecting,
    refl,
    subst (λ js. Nearer c (collect_sent js c.sent c)) (sym same)
        (subst (λ rs. Nearer c (collect_sent [] rs c)) (sym same') (by_collecting r sent c same')),
  )
  move_on_idle (job ∷ jobs) sent c same same' staffed e h =
      let at = idle-first c.workers staffed e in
      (
        taking 0,
        refl,
        subst (λ w. Nearer c (take_job 0 w c)) (sym at)
            (subst (λ js. Nearer c (next_job 0 js c)) (sym same) (by_job job jobs c same at)),
      )

  move_on :
      (left : ℕ) (c : Checking V)
      → c.leaving ≡ left
      → Sound name n staff slots c
      → 1 ≤ c.slots
      → 1 ≤ length c.workers
      → 1 ≤ effort c
      → Goes answer_to c
  unfolding step
  move_on (suc left) c same s slot staffed h = (
    leaving_slot,
    refl,
    subst (λ m. Nearer c (leave_slot m c)) (sym same) (by_leaving left c same),
  )
  move_on zero c same s slot staffed h = elim (at_work weight c.workers) [
    | inl e ↦ move_on_idle c.jobs c.sent c refl refl staffed e (omega (arith, h, e, same))
    | inr (k, w, at, busy) ↦ move_on_worker k w c s slot same at busy
  ]

  -- How a `Check` goes on to its end.
  abbrev pub Ends : ℕ → Checking V → Type 0
  Ends most c =
      (ops : List (Op V)) × ArePatient answer_to ops
      × (length ops ≤ most)
      × (effort (run ops c) ≡ 0)

  pub to_end :
      (m : ℕ) (c : Checking V)
      → Sound name n staff slots c
      → 1 ≤ c.slots
      → 1 ≤ length c.workers
      → effort c ≤ m
      → Ends m c
  unfolding run
  to_end zero c s slot staffed h = ([], refl, omega arith, omega arith)
  to_end (suc m) c s slot staffed h = elim (Bool-cases (ltb 0 (effort c))) [
    | inl more ↦
        let (op, patient, (near, same_staff, same_slots)) =
          move_on c.leaving c refl s slot staffed (ltb→lt 0 (effort c) more) in
        let (ops, patients, short, done) =
          to_end m (step op c) (step-Sound name n staff slots op c s)
            (omega (arith, slot, same_slots)) (omega (arith, staffed, same_staff))
            (omega (arith, near, h)) in
        (op ∷ ops, (patient, patients), omega (arith, short), done)
    | inr over ↦ ([], refl, omega arith, ground (arith, over))
  ]

le_weight : {V : Type 0} (ws : List (Worker V)) → times is_busy ws ≤ times weight ws
le_weight [] = omega arith
le_weight (idle ∷ ws) = omega (arith, le_weight ws)
le_weight (waiting name ∷ ws) = omega (arith, le_weight ws)
le_weight (running name ∷ ws) = omega (arith, le_weight ws)
le_weight (ready name a ∷ ws) = omega (arith, le_weight ws)
le_weight (sending name r ∷ ws) = omega (arith, le_weight ws)

le_running : {V : Type 0} (ws : List (Worker V)) → times is_running ws ≤ times weight ws
le_running [] = omega arith
le_running (idle ∷ ws) = omega (arith, le_running ws)
le_running (waiting name ∷ ws) = omega (arith, le_running ws)
le_running (running name ∷ ws) = omega (arith, le_running ws)
le_running (ready name a ∷ ws) = omega (arith, le_running ws)
le_running (sending name r ∷ ws) = omega (arith, le_running ws)

worker_count-pos : (checks slots : ℕ) → 1 ≤ checks → 1 ≤ slots → 1 ≤ worker_count checks slots
unfolding worker_count
worker_count-pos checks slots h h' = ground arith

-- A `Check` never gets stuck, and needs no time-out: whatever its goroutines have done, in whatever order, and
-- whatever slots other calls hold, it can come to its end, where all slots are free and there are as many results
-- of each name as checks, with no more time-out and no more slot taken by another call, and whatever the checks
-- answer that have not. It takes at most seven steps for each check not handed out, six for each worker that waits
-- for a slot, five for each that runs a check, three for each whose answer is there, two for each that has a
-- result to send, and one for each result in the channel and each slot still to be given back. There is a check
-- and a slot, and not more slots are held before than there are.
pub start-run-ends :
    {V : Type 0} (answer_to : String → Ending V) (name : String) (jobs : List String) (held : ℕ)
    (h : HealthChecker V) (ops : List (Op V))
    → held ≤ h.slots
    → 1 ≤ h.slots
    → 1 ≤ length jobs
    → let c = run ops (start jobs held h) in
      (more : List (Op V)) × ArePatient answer_to more
      × (length more ≤ effort c)
      × (work (run more c) ≡ 0)
      × ((run more c).used ≡ 0)
      × (results_of name (run more c).results ≡ among name jobs)
start-run-ends {V = V} answer_to name jobs held h ops enough slot job =
    let c = run ops (start jobs held h) in
    let n = among name jobs in
    let staff = worker_count (length jobs) h.slots in
    let s = start-run-Sound name jobs held h ops enough in
    let staffed = worker_count-pos (length jobs) h.slots job slot in
    let (more, patient, short, done) =
      to_end name n staff h.slots answer_to (effort c) c s (omega (arith, slot, s.kept))
        (omega (arith, staffed, s.staffed)) (omega arith) in
    let s' = run-Sound name n staff h.slots more c s in
    let over : work (run more c) ≡ 0 = omega (arith, done, le_weight (run more c).workers) in
    (
      more,
      patient,
      short,
      over,
      omega (arith, done, s'.held, le_running (run more c).workers),
      results_of-work name n staff h.slots (run more c) s' over,
    )
