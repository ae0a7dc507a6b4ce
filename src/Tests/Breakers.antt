-- ===== src/Tests/Breakers.antt =====
-- resilience/circuitbreaker.go at concrete inputs: errors are numbers, and `ErrCircuitOpen` is 503.
use quickgo.Prelude.{ℕ, ◌+◌, ◌≤◌, ◌≡◌, refl, true, none, some, List, [], ◌∷◌, arith, get_elem?}
use quickgo.Prelude.Dict.{lookup, insert, ne_of_is}
use quickgo.Prelude.Int.{pos, negsuc, pos_part}
use quickgo.Prelude.Int64.{sub_time}
use quickgo.Resilience.Breaker.{
  CircuitConfig, CircuitBreaker, state_closed, state_open, state_half_open, new_circuit_breaker,
  allow, settle, record_failure, execute,
}
use quickgo.Resilience.Breaker.Validity.{IsValid}
use quickgo.Resilience.Breaker.Traces.{
  Call, ask, report, run, Report, reports, failures, has_run, is_open,
  new_circuit_breaker-run-IsValid, new_circuit_breaker-opens,
}
use quickgo.Resilience.Breaker.Requests.{Probe, probing, admitted}
use quickgo.Resilience.Breaker.Recovery.{open_blocks, open_recovers}
use quickgo.Resilience.Breaker.Probes.{
  System, Step, Reach, with_request, without_earlier, let_through, here, next, IsAccounted,
  running-le-max_late, late_report-breaks_limit,
}
use quickgo.Resilience.BreakerManager.{
  CircuitBreakerManager, new_circuit_breaker_manager, get, get_locked, call,
}
use quickgo.Resilience.BreakerManager.Sharing.{Action, create, apply, acts, get-get}
use quickgo.Resilience.BreakerManager.Isolation.{call-keeps_others}

-- Two failures in a row open the breaker, for 10 ns; two probes that succeed close it. The limit of
-- probes is given as -1, and becomes 1.
abbrev config : CircuitConfig ℕ
config = record {
  failure_threshold = pos 2;
  success_threshold = pos 2;
  open_duration = pos 10;
  half_open_max_reqs = negsuc 0;
  is_failure = none;
}

abbrev fresh : CircuitBreaker ℕ
fresh = new_circuit_breaker 0 "db" config

abbrev outcomes : List (Report ℕ)
outcomes =
    record { now = 1; now' = 1; outcome = some 7 }
    ∷ record { now = 2; now' = 2; outcome = none }
    ∷ record { now = 3; now' = 3; outcome = some 7 }
    ∷ record { now = 4; now' = 5; outcome = some 7 }
    ∷ []

new_circuit_breaker-opens_example :
    is_open (reports outcomes fresh).state
    ≡ has_run (pos_part fresh.config.failure_threshold) (failures fresh.config outcomes)
new_circuit_breaker-opens_example = new_circuit_breaker-opens 0 "db" config outcomes (omega arith)

outcomes_open : is_open (reports outcomes fresh).state ≡ true
unfolding new_circuit_breaker reports settle
outcomes_open = refl

abbrev calls : List (Call ℕ)
calls = report 1 1 (some 7) ∷ report 2 2 (some 7) ∷ ask 3 3 ∷ ask 20 21 ∷ []

new_circuit_breaker-run-IsValid_example : IsValid (run 503 calls fresh)
new_circuit_breaker-run-IsValid_example =
    new_circuit_breaker-run-IsValid 503 0 "db" config calls (omega arith) (omega arith)
      (omega arith) (omega arith)

-- the breaker opened at 5, with its settings
abbrev opened : CircuitBreaker ℕ
opened = record {
  name = "db";
  state = state_open;
  failure_count = pos 2;
  success_count = pos 0;
  half_open_reqs = pos 0;
  last_failure = 4;
  last_state_time = 5;
  config = record config { half_open_max_reqs = pos 1 };
}

after_outcomes : reports outcomes fresh ≡ opened
unfolding new_circuit_breaker reports settle
after_outcomes = refl

opened-IsValid : IsValid opened
opened-IsValid = ground arith

abbrev early : List (Call ℕ)
early = ask 6 6 ∷ report 7 7 (some 7) ∷ ask 14 14 ∷ []

open_blocks_example : (admitted 503 early opened ≡ 0) × ((run 503 early opened).state ≡ state_open)
unfolding sub_time
open_blocks_example = open_blocks 503 early opened refl (refl, (refl, tt))

abbrev first_probe : Probe
first_probe = record { asked = 15; asked' = 15; reported = 16; reported' = 16 }

abbrev more_probes : List Probe
more_probes = record { asked = 17; asked' = 17; reported = 18; reported' = 18 } ∷ []

open_recovers_example :
    ((run 503 (probing (first_probe ∷ more_probes)) opened).state ≡ state_closed)
    × ((run 503 (probing (first_probe ∷ more_probes)) opened).failure_count ≡ pos 0)
    × (admitted 503 (probing (first_probe ∷ more_probes)) opened ≡ 2)
unfolding sub_time
open_recovers_example =
    open_recovers 503 first_probe more_probes opened opened-IsValid refl refl refl

abbrev probed : CircuitBreaker ℕ
probed = record opened {
  state = state_half_open;
  failure_count = pos 0;
  half_open_reqs = pos 1;
  last_state_time = 15;
}

abbrev waiting : System ℕ
waiting = record { breaker = opened; running = 0; late = 0; earlier = 0 }

abbrev one_probe : System ℕ
one_probe = record { breaker = probed; running = 1; late = 0; earlier = 0 }

waiting-IsAccounted : IsAccounted waiting
waiting-IsAccounted = ground arith

one_probe-IsAccounted : IsAccounted one_probe
one_probe-IsAccounted = ground arith

probe_let_through : Reach 503 waiting one_probe
unfolding allow
probe_let_through = next here (let_through waiting 15 15 probed refl)

running-le-max_late_example : one_probe.running ≤ pos_part probed.config.half_open_max_reqs + 0
running-le-max_late_example = running-le-max_late 503 waiting-IsAccounted probe_let_through refl

abbrev strict : System ℕ
strict = record {
  breaker = record probed { config = record probed.config { success_threshold = pos 3 } };
  running = 1;
  late = 0;
  earlier = 1;
}

strict-IsAccounted : IsAccounted strict
strict-IsAccounted = ground arith

late_report-breaks_limit_example :
    let s₁ = without_earlier strict (settle 20 20 none strict.breaker) in
    let answer = allow 503 21 21 s₁.breaker in
    let s₂ = with_request s₁ answer.0 in
    Step 503 strict s₁
    × Step 503 s₁ s₂
    × (answer.1 ≡ none)
    × (s₂.breaker.state ≡ state_half_open)
    × (s₂.running ≡ pos_part s₂.breaker.config.half_open_max_reqs + 1)
late_report-breaks_limit_example =
    late_report-breaks_limit 503 strict 20 20 21 21 strict-IsAccounted refl refl refl (omega arith)
      (omega arith)

abbrev manager : CircuitBreakerManager ℕ
manager = new_circuit_breaker_manager [] config

get-get_example :
    let (m', cb) = get 1 "db" (acts (create 1 "web" ∷ create 2 "db" ∷ [])) manager in
    (get 3 "db" (acts []) (acts (apply 0 (record_failure 2 2) ∷ []) m')).1 ≡ cb
get-get_example =
    get-get 1 3 "db" (create 1 "web" ∷ create 2 "db" ∷ []) (apply 0 (record_failure 2 2) ∷ []) []
      manager

abbrev two_names : List (Action ℕ)
two_names = create 1 "web" ∷ create 2 "db" ∷ []

call-keeps_others_example :
    let m = acts two_names manager in
    get_elem? (call 0 (record_failure 2 2) m).heap 1 ≡ get_elem? m.heap 1
unfolding new_circuit_breaker_manager acts get_locked lookup insert
call-keeps_others_example =
    call-keeps_others [] config two_names "web" "db" 0 1 (record_failure 2 2) refl refl
      (ne_of_is "web" "db" refl)

-- `Execute` on a breaker that is open hands back `ErrCircuitOpen` and does not run its function.
execute_open : (execute 503 6 6 7 7 (λ cb. (some 7, cb)) opened).1 ≡ some 503
unfolding execute
execute_open = refl
