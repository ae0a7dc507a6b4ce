-- ===== src/Tests/Retries.antt =====
-- resilience/retry.go: an operation that succeeds at its second attempt of three.
use quickgo.Prelude.{ℕ, ◌==◌, Option, none, some, arith, String, if◌then◌else◌}
use quickgo.Prelude.Int.{ℤ, pos}
use quickgo.Resilience.Retry.{RetryConfig, do_with_result}
use quickgo.Resilience.Retry.Outcomes.{IsOutcome, do_with_result-IsOutcome}

abbrev config : RetryConfig String
config = record {
  max_attempts = pos 3;
  initial_delay = pos 100;
  max_delay = pos 1000;
  retry_if = none;
}

abbrev same_delay : ℤ → ℤ
same_delay delay = delay

abbrev no_jitter : ℤ → ℕ → ℤ
no_jitter delay attempt = delay

abbrev stopped : ℕ → ℤ
stopped attempt = pos 0

abbrev answer : ℕ → Option String
answer n = if n == 2 then none else some "busy"

abbrev never : ℕ → Option String
never n = none

do_with_result-IsOutcome_example :
    IsOutcome none answer never stopped 1 none 3
      (do_with_result config same_delay no_jitter stopped answer never)
do_with_result-IsOutcome_example =
    do_with_result-IsOutcome config same_delay no_jitter stopped answer never (omega arith)
