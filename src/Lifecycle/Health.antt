-- ===== src/Lifecycle/Health.antt =====
-- lifecycle/health.go: results of health checks, what is made of them, and the checker's state. What a check
-- answers and what the clock shows come from the environment.
pub mod Statuses
pub mod Checking
pub mod Caching
use Prim.Native.String.{String, ◌++◌}
use quickgo.Prelude.{
  ℕ, zero, suc, ◌==◌, Bool, true, false, not, Option, none, some, List, [], ◌∷◌, if◌then◌else◌,
}
use quickgo.Prelude.Int.{ℤ, pos, negsuc}
use quickgo.Prelude.Dict.{◌is◌, insert, lookup, is_mem}

-- `other` is a value that is none of the constants.
pub data HealthStatus : Type 0 where
  unknown healthy unhealthy degraded : HealthStatus
  other : ℕ → HealthStatus

pub record HealthResult (V : Type 0) : Type 0 where
  pub status : HealthStatus
  pub message : String
  pub details : Option (List (String × V))
  pub time : ℕ

pub record HealthCheckerConfig : Type 0 where
  pub timeout : ℤ
  pub max_concurrent : ℤ

-- `slots` is the capacity of the channel; a check is its name.
pub record HealthChecker (V : Type 0) : Type 0 where
  pub checks : List String
  pub timeout : ℤ
  pub last_result : List (String × HealthResult V)
  pub slots : ℕ

-- 5 * time.Second, in nanoseconds
unfoldable pub timeout_or_default : ℤ → ℤ
timeout_or_default (pos zero) = pos 5000000000
timeout_or_default (pos (suc n)) = pos (suc n)
timeout_or_default (negsuc n) = pos 5000000000

unfoldable pub slots_or_default : ℤ → ℕ
slots_or_default (pos zero) = 64
slots_or_default (pos (suc n)) = suc n
slots_or_default (negsuc n) = 64

unfoldable pub new_health_checker : {V : Type 0} → HealthCheckerConfig → HealthChecker V
unfolding timeout_or_default slots_or_default
new_health_checker config = record {
  checks = [];
  timeout = timeout_or_default config.timeout;
  last_result = [];
  slots = slots_or_default config.max_concurrent;
}

-- `Register` of a check; one of the same name is replaced.
unfoldable pub insert_name : String → List String → List String
insert_name name [] = name ∷ []
insert_name name (first ∷ names) =
    let rest = insert_name name names in if first is name then first ∷ names else first ∷ rest

unfoldable pub register : {V : Type 0} → String → HealthChecker V → HealthChecker V
unfolding insert_name
register name h = record h { checks = insert_name name h.checks }

-- How a check ends for `runCheck`: it gets no slot, it panics, it answers at a time, or it is too late.
pub data Ending (V : Type 0) : Type 0 where
  no_slot : String → ℕ → Ending V
  panicked : String → ℕ → Ending V
  answered : HealthResult V → ℕ → ℕ → Ending V
  timed_out : String → ℕ → Ending V

-- `if result.Time.IsZero()`
unfoldable pub at_time : {V : Type 0} → ℕ → HealthResult V → HealthResult V
at_time now result = if result.time == 0 then record result { time = now } else result

unfoldable pub run_check : {V : Type 0} → String → Ending V → HealthResult V
unfolding at_time
run_check name (no_slot err now) = record {
  status = unhealthy;
  message = "health check " ++ name ++ " timed out waiting for an execution slot: " ++ err;
  details = none;
  time = now;
}
run_check name (panicked reason now) = record {
  status = unhealthy;
  message = "health check panic: " ++ reason;
  details = none;
  time = now;
}
run_check name (answered result time now) = at_time now (record result { time = time })
run_check name (timed_out err now) = record {
  status = unhealthy;
  message = "health check " ++ name ++ " timed out: " ++ err;
  details = none;
  time = now;
}

-- The results as they arrive go into a map, here into one that may have others,
unfoldable pub collect :
    {V : Type 0}
    → List (String × HealthResult V)
    → List (String × HealthResult V)
    → List (String × HealthResult V)
collect [] results = results
collect ((name, result) ∷ arrived) results = collect arrived (insert name result results)

-- and at the end of `Check` into the last results.
unfoldable pub update_cache :
    {V : Type 0} → List (String × HealthResult V) → HealthChecker V → HealthChecker V
unfolding collect
update_cache results h = record h { last_result = collect results h.last_result }

-- `CheckOne` with the ending of the check
unfoldable pub check_one :
    {V : Type 0} → String → Ending V → HealthChecker V → HealthChecker V × Option (HealthResult V)
unfolding run_check
check_one name ending h =
    if is_mem name h.checks
    then (
      record h { last_result = insert name (run_check name ending) h.last_result },
      some (run_check name ending),
    )
    else (h, none)

-- One round of the loop of `OverallStatus`, with `hasUnhealthy` and `hasDegraded`
unfoldable pub flag_status : HealthStatus → Bool × Bool → Bool × Bool
flag_status unhealthy (has_unhealthy, has_degraded) = (true, has_degraded)
flag_status degraded (has_unhealthy, has_degraded) = (has_unhealthy, true)
flag_status unknown flags = flags
flag_status healthy flags = flags
flag_status (other n) flags = flags

unfoldable pub flags_in : {V : Type 0} → List (String × HealthResult V) → Bool × Bool → Bool × Bool
unfolding flag_status
flags_in [] flags = flags
flags_in ((name, result) ∷ results) flags = flags_in results (flag_status result.status flags)

-- `OverallStatus` of the results of `Check`
unfoldable pub overall_status : {V : Type 0} → List (String × HealthResult V) → HealthStatus
unfolding flags_in
overall_status results =
    let (has_unhealthy, has_degraded) = flags_in results (false, false) in
    if has_unhealthy then unhealthy else if has_degraded then degraded else healthy

abbrev pub is_unhealthy : HealthStatus → Bool
is_unhealthy unhealthy = true
is_unhealthy degraded = false
is_unhealthy unknown = false
is_unhealthy healthy = false
is_unhealthy (other n) = false

-- `IsReady` of the results of `Check`
unfoldable pub is_ready : {V : Type 0} → List (String × HealthResult V) → Bool
is_ready [] = true
is_ready ((name, result) ∷ results) =
    let rest = is_ready results in if is_unhealthy result.status then false else rest
