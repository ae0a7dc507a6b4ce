-- ===== src/Lifecycle/Health/Checking/Progress.antt =====
-- lifecycle/health.go: a `Check` can go on without a time-out until all its checks are done.
use quickgo.Prelude.{
  ℕ, zero, suc, ◌+◌, ◌*◌, ◌≤◌, ◌≡◌, ◌⊎◌, inl, inr, refl, true, false, ap, ltb, ltb→lt, some, List,
  [], ◌∷◌, String, arith, length, length-append, get_elem?, set, length-set, Bool-cases,
}
use quickgo.Prelude.Counts.{times, times-set}
use quickgo.Lifecycle.Health.{HealthResult, Ending, run_check}
use quickgo.Lifecycle.Health.Checking.{
  Worker, idle, waiting, running, ready, sending, Checking, Op, taking, acquiring, giving_up,
  answering, receiving, timing_out, delivering, collecting, leaving_slot, joining, next_job,
  acquire_slot, answer, receive, deliver, collect_sent, leave_slot, step,
}

-- A step that is none of a time-out or of another call; the answers of the checks are given.
abbrev pub Patient : {V : Type 0} → (String → Ending V) → Op V → Type 0
Patient answer_to (taking k) = true ≡ true
Patient answer_to (acquiring k) = true ≡ true
Patient answer_to (giving_up k err now) = true ≡ false
Patient answer_to (answering k e) = (name : String) × (e ≡ answer_to name)
Patient answer_to (receiving k) = true ≡ true
Patient answer_to (timing_out k err now) = true ≡ false
Patient answer_to (delivering k) = true ≡ true
Patient answer_to collecting = true ≡ true
Patient answer_to leaving_slot = true ≡ true
Patient answer_to joining = true ≡ false

abbrev pub ArePatient : {V : Type 0} → (String → Ending V) → List (Op V) → Type 0
ArePatient answer_to [] = true ≡ true
ArePatient answer_to (op ∷ ops) = Patient answer_to op × ArePatient answer_to ops

-- How far a worker is from the end of its job, and a `Check` and its slots from their end.
abbrev pub weight : {V : Type 0} → Worker V → ℕ
weight idle = 0
weight (waiting name) = 6
weight (running name) = 5
weight (ready name e) = 3
weight (sending name r) = 2

abbrev pub effort : {V : Type 0} → Checking V → ℕ
effort c = 7 * length c.jobs + times weight c.workers + length c.sent + c.leaving

module _ {V : Type 0} where
  abbrev pub Nearer : Checking V → Checking V → Type 0
  Nearer c c' =
      (suc (effort c') ≤ effort c) × (length c'.workers ≡ length c.workers) × (c'.slots ≡ c.slots)

  -- There is a step that is nearer to the end.
  abbrev pub Goes : (String → Ending V) → Checking V → Type 0
  Goes answer_to c = (op : Op V) × Patient answer_to op × Nearer c (step op c)

  pub at_work :
      (f : Worker V → ℕ) (ws : List (Worker V))
      → (times f ws ≡ 0) ⊎ ((k : ℕ) × (w : Worker V) × (get_elem? ws k ≡ some w) × (1 ≤ f w))
  at_work f [] = inl refl
  at_work f (w ∷ ws) = elim (Bool-cases (ltb 0 (f w))) [
    | inl some_work ↦ inr (0, w, refl, ltb→lt 0 (f w) some_work)
    | inr no_work ↦ elim (at_work f ws) [
      | inl e ↦ inl (ground (arith, e, no_work))
      | inr (k, v, at, h) ↦ inr (suc k, v, at, h)
    ]
  ]

  pub idle-first :
      (ws : List (Worker V)) → 1 ≤ length ws → times weight ws ≡ 0 → get_elem? ws 0 ≡ some idle
  idle-first [] h e = absurd (omega arith)
  idle-first (idle ∷ ws) h e = refl
  idle-first (waiting name ∷ ws) h e = absurd (omega arith)
  idle-first (running name ∷ ws) h e = absurd (omega arith)
  idle-first (ready name a ∷ ws) h e = absurd (omega arith)
  idle-first (sending name r ∷ ws) h e = absurd (omega arith)

  changed :
      (c : Checking V) (k : ℕ) (w w' : Worker V)
      → get_elem? c.workers k ≡ some w
      → (times weight (set c.workers k w') + weight w ≡ times weight c.workers + weight w')
        × (length (set c.workers k w') ≡ length c.workers)
  changed c k w w' e = (times-set weight c.workers k w w' e, length-set c.workers k w')

  pub by_leaving : (n : ℕ) (c : Checking V) → c.leaving ≡ suc n → Nearer c (leave_slot (suc n) c)
  unfolding leave_slot
  by_leaving n c e = (omega (arith, e), refl, refl)

  pub by_job :
      (name : String) (jobs : List String) (c : Checking V)
      → c.jobs ≡ name ∷ jobs
      → get_elem? c.workers 0 ≡ some idle
      → Nearer c (next_job 0 (name ∷ jobs) c)
  unfolding next_job
  by_job name jobs c same e =
      let m = changed c 0 idle (waiting name) e in
      (omega (arith, m, ap (λ (js : List String). length js) same), m.1, refl)

  pub by_slot :
      (k : ℕ) (name : String) (c : Checking V)
      → get_elem? c.workers k ≡ some (waiting name)
      → ltb c.used c.slots ≡ true
      → Nearer c (acquire_slot k (some (waiting name)) c)
  unfolding acquire_slot
  by_slot k name c e free =
      let m = changed c k (waiting name) (running name) e in rw free (omega (arith, m), m.1, refl)

  pub by_answer :
      (k : ℕ) (name : String) (a : Ending V) (c : Checking V)
      → get_elem? c.workers k ≡ some (running name)
      → Nearer c (answer k a (some (running name)) c)
  unfolding answer
  by_answer k name a c e =
      let m = changed c k (running name) (ready name a) e in (omega (arith, m), m.1, refl)

  pub by_receive :
      (k : ℕ) (name : String) (a : Ending V) (c : Checking V)
      → get_elem? c.workers k ≡ some (ready name a)
      → Nearer c (receive k (some (ready name a)) c)
  unfolding receive
  by_receive k name a c e =
      let m = changed c k (ready name a) (sending name (run_check name a)) e in
      (omega (arith, m), m.1, refl)

  pub by_delivery :
      (k : ℕ) (name : String) (r : HealthResult V) (c : Checking V)
      → get_elem? c.workers k ≡ some (sending name r)
      → ltb (length c.sent) c.capacity ≡ true
      → Nearer c (deliver k (some (sending name r)) c)
  unfolding deliver
  by_delivery k name r c e room =
      let m = changed c k (sending name r) idle e in
      let one : List (String × HealthResult V) = (name, r) ∷ [] in
      rw room (omega (arith, m, length-append c.sent one), m.1, refl)

  pub by_collecting :
      (r : String × HealthResult V) (sent : List (String × HealthResult V)) (c : Checking V)
      → c.sent ≡ r ∷ sent
      → Nearer c (collect_sent [] (r ∷ sent) c)
  unfolding collect_sent
  by_collecting r sent c e =
      (omega (arith, ap (λ (rs : List (String × HealthResult V)). length rs) e), refl, refl)

  pub busy_worker :
      (f : Worker V → ℕ) (ws : List (Worker V)) (k : ℕ) (w : Worker V)
      → get_elem? ws k ≡ some w
      → f w ≤ times f ws
  busy_worker f [] k w e = absurd (cc e)
  busy_worker f (v ∷ ws) zero w e = let same : v ≡ w = cc e in omega (arith, ap f same)
  busy_worker f (v ∷ ws) (suc k) w e = omega (arith, busy_worker f ws k w e)
