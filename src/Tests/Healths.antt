-- ===== src/Tests/Healths.antt =====
-- lifecycle/health.go: two checks with one slot, one of which is too late for it.
use quickgo.Prelude.{
  ℕ, ◌≡◌, ◌≤◌, refl, not, none, some, get_elem?, ◌++◌, List, [], ◌∷◌, String, length, arith,
}
use quickgo.Prelude.Int.{pos}
use quickgo.Prelude.Dict.{lookup}
use quickgo.Lifecycle.Health.{
  healthy, degraded, HealthResult, HealthChecker, Ending, answered, update_cache, overall_status,
  is_ready, is_unhealthy,
}
use quickgo.Lifecycle.Health.Statuses.{count_of, is_degraded, worst, overall_status-worst}
use quickgo.Lifecycle.Health.Checking.{
  Op, taking, acquiring, giving_up, answering, receiving, delivering, collecting, sending, start,
  step, run,
}
use quickgo.Lifecycle.Health.Checking.Accounts.{among, accounted, results_of, work}
use quickgo.Lifecycle.Health.Checking.Runs.{start-run, start-run-delivering}
use quickgo.Lifecycle.Health.Checking.Progress.{ArePatient, effort}
use quickgo.Lifecycle.Health.Checking.Ends.{start-run-ends}
use quickgo.Lifecycle.Health.Caching.{Cached, update_cache-Cached}

abbrev checker : HealthChecker String
checker = record { checks = "db" ∷ "queue" ∷ []; timeout = pos 1000; last_result = []; slots = 1 }

abbrev fine : HealthResult String
fine = record { status = healthy; message = ""; details = none; time = 0 }

abbrev weak : HealthResult String
weak = record { status = degraded; message = "slow"; details = none; time = 0 }

abbrev answer_to : String → Ending String
answer_to name = answered weak 8 9

abbrev jobs : List String
jobs = "db" ∷ "queue" ∷ []

abbrev first : List (Op String)
first = taking 0 ∷ acquiring 0 ∷ []

abbrev sends : List (Op String)
sends = taking 0 ∷ acquiring 0 ∷ answering 0 (answered fine 5 6) ∷ receiving 0 ∷ []

abbrev whole : List (Op String)
whole =
    sends
    ++ delivering 0 ∷ taking 0 ∷ giving_up 0 "late" 7 ∷ delivering 0 ∷ collecting ∷ collecting ∷ []

abbrev fine_at : ℕ → HealthResult String
fine_at time = record fine { time = time }

sends_ends :
    get_elem? (run sends (start jobs 0 checker)).workers 0 ≡ some (sending "db" (fine_at 5))
unfolding run start
sends_ends = refl

start-run_example :
    (accounted "db" (run first (start jobs 0 checker)) ≡ among "db" jobs)
    × ((run first (start jobs 0 checker)).used ≤ (run first (start jobs 0 checker)).slots)
start-run_example = start-run "db" jobs 0 checker first (omega arith)

start-run-delivering_example :
    (step (delivering 0) (run sends (start jobs 0 checker))).sent
    ≡ (run sends (start jobs 0 checker)).sent ++ ("db", fine_at 5) ∷ []
start-run-delivering_example =
    start-run-delivering jobs 0 checker sends 0 "db" (fine_at 5) (omega arith) sends_ends

start-run-ends_example :
    let c = run first (start jobs 0 checker) in
    (more : List (Op String)) × ArePatient answer_to more
    × (length more ≤ effort c)
    × (work (run more c) ≡ 0)
    × ((run more c).used ≡ 0)
    × (results_of "queue" (run more c).results ≡ among "queue" jobs)
start-run-ends_example =
    start-run-ends answer_to "queue" jobs 0 checker first (omega arith) (omega arith) (omega arith)

whole_ends : work (run whole (start jobs 0 checker)) ≡ 0
unfolding run start
whole_ends = refl

update_cache-Cached_example :
    let c = run whole (start jobs 0 checker) in
    Cached "db"
      (among "db" jobs)
      c.results
      (lookup "db" checker.last_result)
      (lookup "db" (update_cache c.results checker).last_result)
update_cache-Cached_example = update_cache-Cached "db" jobs 0 checker whole (omega arith) whole_ends

abbrev results : List (String × HealthResult String)
results = ("db", fine) ∷ ("queue", weak) ∷ []

overall_status-worst_example :
    (overall_status results ≡ worst (count_of is_unhealthy results) (count_of is_degraded results))
    × (is_ready results ≡ not (is_unhealthy (overall_status results)))
overall_status-worst_example = overall_status-worst results
