-- ===== src/Lifecycle/Health/Checking.antt =====
-- lifecycle/health.go: the workers of a `Check`, the channels they use and the slots of the checker. A step is
-- that of one goroutine, or of two that meet, and they come in any order; other calls take and give back slots
-- meanwhile.
pub mod Accounts
pub mod Workers
pub mod Steps
pub mod Progress
pub mod Runs
pub mod Ends
use quickgo.Prelude.{
  ℕ, zero, suc, ◌+◌, ◌-◌, ltb, Bool, true, false, Option, none, some, List, [], ◌∷◌, ◌++◌, String,
  length, get_elem?, set, if◌then◌else◌,
}
use quickgo.Lifecycle.Health.{HealthResult, HealthChecker, Ending, timed_out, no_slot, run_check}

-- What a worker does: it waits for a job, or for a slot for its job, or for the answer to its job, or the answer
-- is in the channel of its job, or it has a result to send. When the jobs are handed out their channel is
-- closed, and a worker that waits for one has left the loop and is done for the `WaitGroup`.
pub data Worker (V : Type 0) : Type 0 where
  idle : Worker V
  waiting running : String → Worker V
  ready : String → Ending V → Worker V
  sending : String → HealthResult V → Worker V

-- `jobs` are the checks not yet handed out. Of the `used` slots, `leaving` are held by the goroutines whose
-- answer is there or is waited for no more, and by those of other calls. `sent` is what `resultCh` has, with room
-- for `capacity` results, and `results` is what came out of it.
pub record Checking (V : Type 0) : Type 0 where
  pub jobs : List String
  pub workers : List (Worker V)
  pub slots : ℕ
  pub used : ℕ
  pub leaving : ℕ
  pub capacity : ℕ
  pub sent : List (String × HealthResult V)
  pub results : List (String × HealthResult V)

unfoldable pub worker_count : ℕ → ℕ → ℕ
worker_count checks max_concurrent = if ltb max_concurrent checks then max_concurrent else checks

abbrev pub idlers : {V : Type 0} → ℕ → List (Worker V)
idlers zero = []
idlers (suc n) = idle ∷ idlers n

-- The start of `Check`, which hands out the checks in some order, while other calls hold slots.
unfoldable pub start : {V : Type 0} → List String → ℕ → HealthChecker V → Checking V
unfolding worker_count
start jobs held h = record {
  jobs = jobs;
  workers = idlers (worker_count (length jobs) h.slots);
  slots = h.slots;
  used = held;
  leaving = held;
  capacity = length jobs;
  sent = [];
  results = [];
}

pub data Op (V : Type 0) : Type 0 where
  taking acquiring : ℕ → Op V
  giving_up : ℕ → String → ℕ → Op V
  answering : ℕ → Ending V → Op V
  receiving : ℕ → Op V
  timing_out : ℕ → String → ℕ → Op V
  delivering : ℕ → Op V
  collecting leaving_slot joining : Op V

module _ {V : Type 0} where
  -- `jobs <-` of `Check` meets `range jobs` of a worker.
  unfoldable pub next_job : ℕ → List String → Checking V → Checking V
  next_job k [] c = c
  next_job k (name ∷ jobs) c = record c { jobs = jobs; workers = set c.workers k (waiting name) }

  unfoldable pub take_job : ℕ → Option (Worker V) → Checking V → Checking V
  unfolding next_job
  take_job k none c = c
  take_job k (some idle) c = next_job k c.jobs c
  take_job k (some (waiting name)) c = c
  take_job k (some (running name)) c = c
  take_job k (some (ready name e)) c = c
  take_job k (some (sending name r)) c = c

  -- `case h.slots <- struct{}{}`
  unfoldable pub acquire_slot : ℕ → Option (Worker V) → Checking V → Checking V
  acquire_slot k none c = c
  acquire_slot k (some idle) c = c
  acquire_slot k (some (waiting name)) c =
      if ltb c.used c.slots
      then record c { workers = set c.workers k (running name); used = c.used + 1 }
      else c
  acquire_slot k (some (running name)) c = c
  acquire_slot k (some (ready name e)) c = c
  acquire_slot k (some (sending name r)) c = c

  -- `case <-checkCtx.Done()` without a slot
  unfoldable pub give_up : ℕ → String → ℕ → Option (Worker V) → Checking V → Checking V
  unfolding run_check
  give_up k err now none c = c
  give_up k err now (some idle) c = c
  give_up k err now (some (waiting name)) c = record c {
    workers = set c.workers k (sending name (run_check name (no_slot err now)));
  }
  give_up k err now (some (running name)) c = c
  give_up k err now (some (ready name e)) c = c
  give_up k err now (some (sending name r)) c = c

  -- The goroutine of a check sends its answer, or what it panics with, to the channel of its job, which has room
  -- for it; it has its slot still.
  unfoldable pub answer : ℕ → Ending V → Option (Worker V) → Checking V → Checking V
  answer k e none c = c
  answer k e (some idle) c = c
  answer k e (some (waiting name)) c = c
  answer k e (some (running name)) c = record c {
    workers = set c.workers k (ready name e);
    leaving = c.leaving + 1;
  }
  answer k e (some (ready name e')) c = c
  answer k e (some (sending name r)) c = c

  -- `case result := <-resultCh`
  unfoldable pub receive : ℕ → Option (Worker V) → Checking V → Checking V
  unfolding run_check
  receive k none c = c
  receive k (some idle) c = c
  receive k (some (waiting name)) c = c
  receive k (some (running name)) c = c
  receive k (some (ready name e)) c = record c {
    workers = set c.workers k (sending name (run_check name e));
  }
  receive k (some (sending name r)) c = c

  -- `case <-checkCtx.Done()` with a slot, whether the answer is there or not
  unfoldable pub time_out : ℕ → String → ℕ → Option (Worker V) → Checking V → Checking V
  unfolding run_check
  time_out k err now none c = c
  time_out k err now (some idle) c = c
  time_out k err now (some (waiting name)) c = c
  time_out k err now (some (running name)) c = record c {
    workers = set c.workers k (sending name (run_check name (timed_out err now)));
    leaving = c.leaving + 1;
  }
  time_out k err now (some (ready name e)) c = record c {
    workers = set c.workers k (sending name (run_check name (timed_out err now)));
  }
  time_out k err now (some (sending name r)) c = c

  -- `resultCh <- checkResult{...}` of a worker
  unfoldable pub deliver : ℕ → Option (Worker V) → Checking V → Checking V
  deliver k none c = c
  deliver k (some idle) c = c
  deliver k (some (waiting name)) c = c
  deliver k (some (running name)) c = c
  deliver k (some (ready name e)) c = c
  deliver k (some (sending name r)) c =
      if ltb (length c.sent) c.capacity
      then record c { workers = set c.workers k idle; sent = c.sent ++ (name, r) ∷ [] }
      else c

  -- `range resultCh` of `Check`, after all jobs are handed out
  unfoldable pub collect_sent :
      List String → List (String × HealthResult V) → Checking V → Checking V
  collect_sent [] [] c = c
  collect_sent [] (r ∷ sent) c = record c { sent = sent; results = c.results ++ r ∷ [] }
  collect_sent (job ∷ jobs) sent c = c

  -- `<-h.slots` of a goroutine
  unfoldable pub leave_slot : ℕ → Checking V → Checking V
  leave_slot zero c = c
  leave_slot (suc n) c = record c { used = c.used - 1; leaving = n }

  unfoldable pub step : Op V → Checking V → Checking V
  unfolding take_job acquire_slot give_up answer receive time_out deliver collect_sent leave_slot
  step (taking k) c = take_job k (get_elem? c.workers k) c
  step (acquiring k) c = acquire_slot k (get_elem? c.workers k) c
  step (giving_up k err now) c = give_up k err now (get_elem? c.workers k) c
  step (answering k e) c = answer k e (get_elem? c.workers k) c
  step (receiving k) c = receive k (get_elem? c.workers k) c
  step (timing_out k err now) c = time_out k err now (get_elem? c.workers k) c
  step (delivering k) c = deliver k (get_elem? c.workers k) c
  step collecting c = collect_sent c.jobs c.sent c
  step leaving_slot c = leave_slot c.leaving c
  step joining c =
      if ltb c.used c.slots then record c { used = c.used + 1; leaving = c.leaving + 1 } else c

  unfoldable pub run : List (Op V) → Checking V → Checking V
  unfolding step
  run [] c = c
  run (op ∷ ops) c = run ops (step op c)
