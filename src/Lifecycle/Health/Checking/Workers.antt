-- ===== src/Lifecycle/Health/Checking/Workers.antt =====
-- lifecycle/health.go: no step of a worker loses a check or makes one twice, and the slots and the room are enough.
use quickgo.Prelude.{
  ℕ, ◌≡◌, refl, ap, ltb, Option, none, some, List, [], ◌∷◌, String, arith, length, length-append,
  get_elem?, if_both,
}
use quickgo.Lifecycle.Health.{HealthResult, Ending, timed_out, no_slot, run_check}
use quickgo.Lifecycle.Health.Checking.{
  Worker, idle, waiting, running, ready, sending, Checking, next_job, take_job, acquire_slot,
  give_up, answer, receive, time_out, deliver,
}
use quickgo.Lifecycle.Health.Checking.Accounts.{among, Sound, results_of-append, moved}

module _ {V : Type 0} (name : String) (n staff slots : ℕ) where
  next_job-Sound :
      (k : ℕ) (jobs : List String) (c : Checking V)
      → jobs ≡ c.jobs
      → get_elem? c.workers k ≡ some idle
      → Sound name n staff slots c
      → Sound name n staff slots (next_job k jobs c)
  unfolding next_job
  next_job-Sound k [] c same e s = s
  next_job-Sound k (job ∷ jobs) c same e s =
      let m = moved name c k idle (waiting job) e in
      record {
        all_there = omega (arith, m, s.all_there, ap (among name) same);
        held = omega (arith, m, s.held);
        fits = omega (arith, m, s.fits, ap (λ (js : List String). length js) same);
        staffed = omega (arith, m, s.staffed);
        kept = s.kept;
        bound = s.bound;
      }

  pub take_job-Sound :
      (k : ℕ) (w : Option (Worker V)) (c : Checking V)
      → get_elem? c.workers k ≡ w
      → Sound name n staff slots c
      → Sound name n staff slots (take_job k w c)
  unfolding take_job
  take_job-Sound k none c e s = s
  take_job-Sound k (some idle) c e s = next_job-Sound k c.jobs c refl e s
  take_job-Sound k (some (waiting job)) c e s = s
  take_job-Sound k (some (running job)) c e s = s
  take_job-Sound k (some (ready job end)) c e s = s
  take_job-Sound k (some (sending job r)) c e s = s

  pub acquire_slot-Sound :
      (k : ℕ) (w : Option (Worker V)) (c : Checking V)
      → get_elem? c.workers k ≡ w
      → Sound name n staff slots c
      → Sound name n staff slots (acquire_slot k w c)
  unfolding acquire_slot
  acquire_slot-Sound k none c e s = s
  acquire_slot-Sound k (some idle) c e s = s
  acquire_slot-Sound k (some (waiting job)) c e s =
      let m = moved name c k (waiting job) (running job) e in
      if_both (Sound name n staff slots) (ltb c.used c.slots)
        (λ free. record {
          all_there = omega (arith, m, s.all_there);
          held = omega (arith, m, s.held);
          fits = omega (arith, m, s.fits);
          staffed = omega (arith, m, s.staffed);
          kept = s.kept;
          bound = ground (arith, free, s.bound);
        })
        (λ full. s)
  acquire_slot-Sound k (some (running job)) c e s = s
  acquire_slot-Sound k (some (ready job end)) c e s = s
  acquire_slot-Sound k (some (sending job r)) c e s = s

  pub give_up-Sound :
      (k : ℕ) (err : String) (now : ℕ) (w : Option (Worker V)) (c : Checking V)
      → get_elem? c.workers k ≡ w
      → Sound name n staff slots c
      → Sound name n staff slots (give_up k err now w c)
  unfolding give_up
  give_up-Sound k err now none c e s = s
  give_up-Sound k err now (some idle) c e s = s
  give_up-Sound k err now (some (waiting job)) c e s =
      let m = moved name c k (waiting job) (sending job (run_check job (no_slot err now))) e in
      record {
        all_there = omega (arith, m, s.all_there);
        held = omega (arith, m, s.held);
        fits = omega (arith, m, s.fits);
        staffed = omega (arith, m, s.staffed);
        kept = s.kept;
        bound = s.bound;
      }
  give_up-Sound k err now (some (running job)) c e s = s
  give_up-Sound k err now (some (ready job end)) c e s = s
  give_up-Sound k err now (some (sending job r)) c e s = s

  pub answer-Sound :
      (k : ℕ) (a : Ending V) (w : Option (Worker V)) (c : Checking V)
      → get_elem? c.workers k ≡ w
      → Sound name n staff slots c
      → Sound name n staff slots (answer k a w c)
  unfolding answer
  answer-Sound k a none c e s = s
  answer-Sound k a (some idle) c e s = s
  answer-Sound k a (some (waiting job)) c e s = s
  answer-Sound k a (some (running job)) c e s =
      let m = moved name c k (running job) (ready job a) e in
      record {
        all_there = omega (arith, m, s.all_there);
        held = omega (arith, m, s.held);
        fits = omega (arith, m, s.fits);
        staffed = omega (arith, m, s.staffed);
        kept = s.kept;
        bound = s.bound;
      }
  answer-Sound k a (some (ready job end)) c e s = s
  answer-Sound k a (some (sending job r)) c e s = s

  pub receive-Sound :
      (k : ℕ) (w : Option (Worker V)) (c : Checking V)
      → get_elem? c.workers k ≡ w
      → Sound name n staff slots c
      → Sound name n staff slots (receive k w c)
  unfolding receive
  receive-Sound k none c e s = s
  receive-Sound k (some idle) c e s = s
  receive-Sound k (some (waiting job)) c e s = s
  receive-Sound k (some (running job)) c e s = s
  receive-Sound k (some (ready job end)) c e s =
      let m = moved name c k (ready job end) (sending job (run_check job end)) e in
      record {
        all_there = omega (arith, m, s.all_there);
        held = omega (arith, m, s.held);
        fits = omega (arith, m, s.fits);
        staffed = omega (arith, m, s.staffed);
        kept = s.kept;
        bound = s.bound;
      }
  receive-Sound k (some (sending job r)) c e s = s

  pub time_out-Sound :
      (k : ℕ) (err : String) (now : ℕ) (w : Option (Worker V)) (c : Checking V)
      → get_elem? c.workers k ≡ w
      → Sound name n staff slots c
      → Sound name n staff slots (time_out k err now w c)
  unfolding time_out
  time_out-Sound k err now none c e s = s
  time_out-Sound k err now (some idle) c e s = s
  time_out-Sound k err now (some (waiting job)) c e s = s
  time_out-Sound k err now (some (running job)) c e s =
      let m = moved name c k (running job) (sending job (run_check job (timed_out err now))) e in
      record {
        all_there = omega (arith, m, s.all_there);
        held = omega (arith, m, s.held);
        fits = omega (arith, m, s.fits);
        staffed = omega (arith, m, s.staffed);
        kept = s.kept;
        bound = s.bound;
      }
  time_out-Sound k err now (some (ready job end)) c e s =
      let m = moved name c k (ready job end) (sending job (run_check job (timed_out err now))) e in
      record {
        all_there = omega (arith, m, s.all_there);
        held = omega (arith, m, s.held);
        fits = omega (arith, m, s.fits);
        staffed = omega (arith, m, s.staffed);
        kept = s.kept;
        bound = s.bound;
      }
  time_out-Sound k err now (some (sending job r)) c e s = s

  pub deliver-Sound :
      (k : ℕ) (w : Option (Worker V)) (c : Checking V)
      → get_elem? c.workers k ≡ w
      → Sound name n staff slots c
      → Sound name n staff slots (deliver k w c)
  unfolding deliver
  deliver-Sound k none c e s = s
  deliver-Sound k (some idle) c e s = s
  deliver-Sound k (some (waiting job)) c e s = s
  deliver-Sound k (some (running job)) c e s = s
  deliver-Sound k (some (ready job end)) c e s = s
  deliver-Sound k (some (sending job r)) c e s =
      let m = moved name c k (sending job r) idle e in
      let one : List (String × HealthResult V) = (job, r) ∷ [] in
      if_both (Sound name n staff slots) (ltb (length c.sent) c.capacity)
        (λ room. record {
          all_there = omega (arith, m, s.all_there, results_of-append name c.sent one);
          held = omega (arith, m, s.held);
          fits = omega (arith, m, s.fits, length-append c.sent one);
          staffed = omega (arith, m, s.staffed);
          kept = s.kept;
          bound = s.bound;
        })
        (λ full. s)
