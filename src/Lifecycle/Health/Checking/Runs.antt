-- ===== src/Lifecycle/Health/Checking/Runs.antt =====
-- lifecycle/health.go: what holds in every `Check`.
use quickgo.Prelude.{
  ℕ, zero, suc, ◌≤◌, ◌<◌, ◌≡◌, refl, subst, sym, ap, lt→ltb, some, List, [], ◌∷◌, ◌++◌, String,
  arith, length, get_elem?,
}
use quickgo.Prelude.Counts.{times}
use quickgo.Lifecycle.Health.{HealthResult, HealthChecker}
use quickgo.Lifecycle.Health.Checking.{
  Worker, idle, waiting, running, ready, sending, Checking, worker_count, idlers, start, Op,
  delivering, deliver, step, run,
}
use quickgo.Lifecycle.Health.Checking.Accounts.{
  works_on, is_running, is_busy, among, results_of, accounted, work, Sound,
}
use quickgo.Lifecycle.Health.Checking.Steps.{run-Sound}

times-idlers : {V : Type 0} (f : Worker V → ℕ) (n : ℕ) → f idle ≡ 0 → times f (idlers n) ≡ 0
times-idlers f zero e = refl
times-idlers f (suc n) e = omega (arith, e, times-idlers f n e)

length-idlers : (V : Type 0) (n : ℕ) → length (idlers {V = V} n) ≡ n
length-idlers V zero = refl
length-idlers V (suc n) = ap suc (length-idlers V n)

pub start-run-Sound :
    {V : Type 0} (name : String) (jobs : List String) (held : ℕ) (h : HealthChecker V)
    (ops : List (Op V))
    → held ≤ h.slots
    → Sound name
        (among name jobs)
        (worker_count (length jobs) h.slots)
        h.slots
        (run ops (start jobs held h))
unfolding start
start-run-Sound {V = V} name jobs held h ops enough =
    let n = worker_count (length jobs) h.slots in
    let on : Worker V → ℕ = works_on name in
    let runs : Worker V → ℕ = is_running in
    let busy : Worker V → ℕ = is_busy in
    run-Sound name (among name jobs) n h.slots ops (start jobs held h) (record {
      all_there = omega (arith, times-idlers on n refl);
      held = omega (arith, times-idlers runs n refl);
      fits = omega (arith, times-idlers busy n refl);
      bound = enough;
      staffed = length-idlers V n;
      kept = refl;
    })

-- In a `Check`, whatever its goroutines do and in whatever order, and whatever slots other calls hold: of each
-- name there are as many checks not handed out, with a worker, in the channel of the results and done, taken
-- together, as it began with, and no more slots are used than there are. Not more of them are held before than
-- there are.
pub start-run :
    {V : Type 0} (name : String) (jobs : List String) (held : ℕ) (h : HealthChecker V)
    (ops : List (Op V))
    → held ≤ h.slots
    → (accounted name (run ops (start jobs held h)) ≡ among name jobs)
      × ((run ops (start jobs held h)).used ≤ (run ops (start jobs held h)).slots)
start-run name jobs held h ops enough =
    let s = start-run-Sound name jobs held h ops enough in (s.all_there, s.bound)

le_length : (name : String) (jobs : List String) → among name jobs ≤ length jobs
le_length name [] = omega arith
le_length name (job ∷ jobs) = ground (arith, le_length name jobs)

le_sent :
    {V : Type 0} (name : String) (rs : List (String × HealthResult V))
    → results_of name rs ≤ length rs
le_sent name [] = omega arith
le_sent name (r ∷ rs) = ground (arith, le_sent name rs)

le_busy :
    {V : Type 0} (name : String) (ws : List (Worker V))
    → times (works_on name) ws ≤ times is_busy ws
le_busy name [] = omega arith
le_busy name (idle ∷ ws) = omega (arith, le_busy name ws)
le_busy name (waiting job ∷ ws) = ground (arith, le_busy name ws)
le_busy name (running job ∷ ws) = ground (arith, le_busy name ws)
le_busy name (ready job e ∷ ws) = ground (arith, le_busy name ws)
le_busy name (sending job r ∷ ws) = ground (arith, le_busy name ws)

-- At its end a `Check` has a result for each check.
pub results_of-work :
    {V : Type 0} (name : String) (n staff slots : ℕ) (c : Checking V)
    → Sound name n staff slots c
    → work c ≡ 0
    → results_of name c.results ≡ n
results_of-work name n staff slots c s over =
    omega
      (arith, over, s.all_there, le_length name c.jobs, le_busy name c.workers, le_sent name c.sent)

pub results_of-run :
    {V : Type 0} (name : String) (jobs : List String) (held : ℕ) (h : HealthChecker V)
    (ops : List (Op V))
    → held ≤ h.slots
    → work (run ops (start jobs held h)) ≡ 0
    → results_of name (run ops (start jobs held h)).results ≡ among name jobs
results_of-run name jobs held h ops enough over =
    results_of-work name (among name jobs) (worker_count (length jobs) h.slots) h.slots _
      (start-run-Sound name jobs held h ops enough) over

busy :
    {V : Type 0} (ws : List (Worker V)) (k : ℕ) (job : String) (r : HealthResult V)
    → get_elem? ws k ≡ some (sending job r)
    → 1 ≤ times is_busy ws
busy [] k job r e = absurd (cc e)
busy (w ∷ ws) zero job r e = let same : w ≡ sending job r = cc e in omega (arith, ap is_busy same)
busy (w ∷ ws) (suc k) job r e = omega (arith, busy ws k job r e)

deliver_lem :
    {V : Type 0} (k : ℕ) (job : String) (r : HealthResult V) (c : Checking V)
    → length c.sent < c.capacity
    → (deliver k (some (sending job r)) c).sent ≡ c.sent ++ (job, r) ∷ []
unfolding deliver
deliver_lem k job r c room = rw (lt→ltb (length c.sent) c.capacity room) refl

-- In a `Check`, whatever its goroutines have done, in whatever order, and whatever slots other calls hold: a
-- worker that has a result to send can send it at once, and the channel of the results then ends in it. Not more
-- slots are held before than there are.
pub start-run-delivering :
    {V : Type 0} (jobs : List String) (held : ℕ) (h : HealthChecker V) (ops : List (Op V)) (k : ℕ)
    (name : String) (r : HealthResult V)
    → held ≤ h.slots
    → get_elem? (run ops (start jobs held h)).workers k ≡ some (sending name r)
    → (step (delivering k) (run ops (start jobs held h))).sent
      ≡ (run ops (start jobs held h)).sent ++ (name, r) ∷ []
unfolding step
start-run-delivering jobs held h ops k name r enough at =
    let c = run ops (start jobs held h) in
    let s = start-run-Sound name jobs held h ops enough in
    let room : length c.sent < c.capacity = omega (arith, s.fits, busy c.workers k name r at) in
    subst (λ w. (deliver k w c).sent ≡ c.sent ++ (name, r) ∷ []) (sym at)
      (deliver_lem k name r c room)
