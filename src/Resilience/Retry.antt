-- ===== src/Resilience/Retry.antt =====
-- resilience/retry.go: the loop of `DoWithResult`. What the operation answers at each attempt and whether
-- the context ends a wait are parameters, and so are the computations on float64: `scale`, the delay
-- times the multiplier, and `jitter`, the delay that is really waited after an attempt. `since` is
-- time.Since(start) at the end, if the attempt is the last one.
pub mod Outcomes
pub mod Retryable
use quickgo.Prelude.{
  ℕ, zero, suc, ◌-◌, Bool, true, false, not, Option, none, some, List, [], ◌∷◌, if◌then◌else◌,
}
use quickgo.Prelude.Int.{ℤ, pos, pos_part, ltb_ℤ}
use quickgo.Prelude.Int64.{leb_ℤ}

pub record RetryConfig (E : Type 0) : Type 0 where
  pub max_attempts : ℤ
  pub initial_delay : ℤ
  pub max_delay : ℤ
  pub retry_if : Option (E → Bool)

-- `NewRetryer`, but for the fields that only the computations on float64 read
unfoldable pub new_retryer : {E : Type 0} → RetryConfig E → RetryConfig E
new_retryer config = record config {
  max_attempts = if leb_ℤ config.max_attempts (pos 0) then pos 3 else config.max_attempts;
  initial_delay =
      if leb_ℤ config.initial_delay (pos 0) then pos 100000000 else config.initial_delay;
  max_delay = if leb_ℤ config.max_delay (pos 0) then pos 10000000000 else config.max_delay;
}

pub record RetryResult (E : Type 0) : Type 0 where
  pub attempts : ℕ
  pub duration : ℤ
  pub last_err : Option E

-- What `DoWithResult` returns, with the delays that it waited.
pub record Retried (E : Type 0) : Type 0 where
  pub result : RetryResult E
  pub err : Option E
  pub delays : List ℤ

module _ {E : Type 0} where
  -- `RetryIf` says no.
  unfoldable pub is_declined : Option (E → Bool) → E → Bool
  is_declined none err = false
  is_declined (some retry_if) err = not (retry_if err)

  -- The end of the loop at an attempt
  unfoldable pub return_at : (ℕ → ℤ) → ℕ → Option E → Option E → Retried E
  return_at since attempt last_err err = record {
    result = record { attempts = attempt; duration = since attempt; last_err = last_err };
    err = err;
    delays = [];
  }

  -- The wait after an attempt that failed: `ctx.Err()` if the context is done first.
  unfoldable pub wait : (ℕ → ℤ) → ℕ → ℤ → E → Option E → Retried E → Retried E
  unfolding return_at
  wait since attempt delay failed (some e) rest =
      record (return_at since attempt (some failed) (some e)) { delays = delay ∷ [] }
  wait since attempt delay failed none rest = record rest { delays = delay ∷ rest.delays }

  -- One attempt by its answer, with the last error before it; `rest` is what comes after the wait that
  -- follows an error.
  unfoldable pub attempt_once :
      (ℕ → ℤ)
      → Option (E → Bool)
      → ℕ
      → ℤ
      → Option E
      → Option E
      → Option E
      → (E → Retried E)
      → Retried E
  unfolding wait is_declined return_at
  attempt_once since retry_if attempt delay last_err none cut rest =
      return_at since attempt last_err none
  attempt_once since retry_if attempt delay last_err (some e) cut rest =
      if is_declined retry_if e
      then return_at since attempt (some e) (some e)
      else wait since attempt delay e cut (rest e)

  -- The last attempt: both branches of the test of `RetryIf` return its error.
  unfoldable pub attempt_last : (ℕ → ℤ) → ℕ → Option E → Option E → Retried E
  unfolding return_at
  attempt_last since attempt last_err none = return_at since attempt last_err none
  attempt_last since attempt last_err (some e) = return_at since attempt (some e) (some e)

  -- the delay for the next wait, cut to the limit
  unfoldable pub next_delay : RetryConfig E → (ℤ → ℤ) → ℤ → ℤ
  next_delay config scale delay =
      if ltb_ℤ config.max_delay (scale delay) then config.max_delay else scale delay

  module _ (config : RetryConfig E) (scale : ℤ → ℤ) (jitter : ℤ → ℕ → ℤ) (since : ℕ → ℤ)
      (fn ctx_err : ℕ → Option E) where
    -- The loop from an attempt on, when `left` more may follow, with the last error before it.
    unfoldable pub retry_from : ℕ → ℕ → ℤ → Option E → Retried E
    unfolding attempt_once attempt_last next_delay
    retry_from zero attempt delay last_err = attempt_last since attempt last_err (fn attempt)
    retry_from (suc left) attempt delay last_err =
        attempt_once since config.retry_if attempt (jitter delay attempt) last_err (fn attempt)
          (ctx_err attempt)
          (λ e. retry_from left (suc attempt) (next_delay config scale delay) (some e))

    unfoldable pub do_with_result : Retried E
    unfolding retry_from
    do_with_result = retry_from (pos_part config.max_attempts - 1) 1 config.initial_delay none
