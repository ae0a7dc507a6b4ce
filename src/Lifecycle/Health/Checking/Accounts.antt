-- ===== src/Lifecycle/Health/Checking/Accounts.antt =====
-- lifecycle/health.go: where the checks, the slots and the results of a `Check` are.
use quickgo.Prelude.{ℕ, ◌+◌, ◌≤◌, ◌≡◌, some, List, ◌++◌, String, length, length-set, get_elem?, set}
use quickgo.Prelude.Counts.{one_if, times, times-append, times-set}
use quickgo.Prelude.Dict.{◌is◌}
use quickgo.Lifecycle.Health.{HealthResult}
use quickgo.Lifecycle.Health.Checking.{Worker, idle, waiting, running, ready, sending, Checking}

abbrev pub works_on : {V : Type 0} → String → Worker V → ℕ
works_on name idle = 0
works_on name (waiting job) = one_if (job is name)
works_on name (running job) = one_if (job is name)
works_on name (ready job end) = one_if (job is name)
works_on name (sending job r) = one_if (job is name)

abbrev pub is_running : {V : Type 0} → Worker V → ℕ
is_running idle = 0
is_running (waiting job) = 0
is_running (running job) = 1
is_running (ready job end) = 0
is_running (sending job r) = 0

abbrev pub is_busy : {V : Type 0} → Worker V → ℕ
is_busy idle = 0
is_busy (waiting job) = 1
is_busy (running job) = 1
is_busy (ready job end) = 1
is_busy (sending job r) = 1

abbrev pub among : String → List String → ℕ
among name = times (λ job. one_if (job is name))

abbrev pub results_of : {V : Type 0} → String → List (String × HealthResult V) → ℕ
results_of name = times (λ result. one_if (result.0 is name))

-- Where the checks of a name are: not handed out, with a worker, sent, or done.
abbrev pub accounted : {V : Type 0} → String → Checking V → ℕ
accounted name c =
    among name c.jobs
    + times (works_on name) c.workers
    + results_of name c.sent
    + results_of name c.results

-- What a `Check` waits for before its end
abbrev pub work : {V : Type 0} → Checking V → ℕ
work c = length c.jobs + times is_busy c.workers + length c.sent

-- The checks are all there, of the slots used each is of a worker or given back later, and the channel has room
-- for what there is to send.
pub record Sound {V : Type 0} (name : String) (checks staff slots : ℕ) (c : Checking V)
    : Type 0 where
  pub all_there : accounted name c ≡ checks
  pub held : c.used ≡ times is_running c.workers + c.leaving
  pub fits : work c + length c.results ≡ c.capacity
  pub bound : c.used ≤ c.slots
  pub staffed : length c.workers ≡ staff
  pub kept : c.slots ≡ slots

module _ {V : Type 0} (name : String) where
  pub results_of-append :
      (xs ys : List (String × HealthResult V))
      → results_of name (xs ++ ys) ≡ results_of name xs + results_of name ys
  results_of-append = times-append (λ (r : String × HealthResult V). one_if (r.0 is name))

  pub moved :
      (c : Checking V) (k : ℕ) (w w' : Worker V)
      → get_elem? c.workers k ≡ some w
      → (times (works_on name) (set c.workers k w') + works_on name w
          ≡ times (works_on name) c.workers + works_on name w')
        × (times is_running (set c.workers k w') + is_running w
            ≡ times is_running c.workers + is_running w')
        × (times is_busy (set c.workers k w') + is_busy w ≡ times is_busy c.workers + is_busy w')
        × (length (set c.workers k w') ≡ length c.workers)
  moved c k w w' e = (
    times-set (works_on name) c.workers k w w' e,
    times-set is_running c.workers k w w' e,
    times-set is_busy c.workers k w w' e,
    length-set c.workers k w',
  )
