-- ===== src/Resilience/Breaker/Validity.antt =====
-- resilience/circuitbreaker.go: what holds of a breaker between two calls, under any interleaving.
use quickgo.Prelude.{ℕ, ◌+◌, ◌≤◌, ◌<◌, ◌≡◌, Option, none, some, String, arith}
use quickgo.Prelude.Int.{ℤ, pos, pos_part, ◌≤ℤ◌}
use quickgo.Prelude.Int64.{max_int, IsCount}
use quickgo.Resilience.Breaker.{
  CircuitConfig, CircuitBreaker, state_closed, state_half_open, new_circuit_breaker, record_success,
  record_failure, settle, allow,
}

-- The settings that `NewCircuitBreaker` leaves: positive, and within 64 bits.
abbrev pub IsPositive : ℤ → Type 0
IsPositive x = (pos 1 ≤ℤ x) × (x ≤ℤ pos max_int)

pub IsPositive-pos : (x : ℤ) → IsPositive x → x ≡ pos (pos_part x)
IsPositive-pos x h = ground arith

pub IsPositive-range : (x : ℤ) → IsPositive x → (0 < pos_part x) × (pos_part x ≤ max_int)
IsPositive-range x h = ground arith

-- A setting that fits 64 bits.
abbrev pub Fits : ℤ → Type 0
Fits x = x ≤ℤ pos max_int

pub record IsSane {E : Type 0} (c : CircuitConfig E) : Type 0 where
  pub failure_threshold : IsPositive c.failure_threshold
  pub success_threshold : IsPositive c.success_threshold
  pub open_duration : IsPositive c.open_duration
  pub half_open_max_reqs : IsPositive c.half_open_max_reqs

-- In the closed state the failures in a row stay below their threshold, in the half-open state the
-- successes in a row below theirs and the probes within their limit.
pub record IsValid {E : Type 0} (cb : CircuitBreaker E) : Type 0 where
  pub sane : IsSane cb.config
  pub failures : IsCount cb.failure_count
  pub successes : IsCount cb.success_count
  pub probes : IsCount cb.half_open_reqs
  pub closed_below :
      cb.state ≡ state_closed → pos_part cb.failure_count + 1 ≤ pos_part cb.config.failure_threshold
  pub half_open_below :
      cb.state ≡ state_half_open
      → pos_part cb.success_count + 1 ≤ pos_part cb.config.success_threshold
  pub half_open_within :
      cb.state ≡ state_half_open
      → pos_part cb.half_open_reqs ≤ pos_part cb.config.half_open_max_reqs

module _ {E : Type 0} where
  pub record_success-IsValid :
      (now : ℕ) (cb : CircuitBreaker E) → IsValid cb → IsValid (record_success now cb)
  unfolding record_success
  record_success-IsValid now cb v = ground arith

  pub record_failure-IsValid :
      (now now' : ℕ) (cb : CircuitBreaker E) → IsValid cb → IsValid (record_failure now now' cb)
  unfolding record_failure
  record_failure-IsValid now now' cb v = ground arith

  pub allow-IsValid :
      (err_circuit_open : E) (now now' : ℕ) (cb : CircuitBreaker E)
      → IsValid cb
      → IsValid (allow err_circuit_open now now' cb).0
  unfolding allow
  allow-IsValid err_circuit_open now now' cb v = ground arith

  pub settle-IsValid :
      (now now' : ℕ) (outcome : Option E) (cb : CircuitBreaker E)
      → IsValid cb
      → IsValid (settle now now' outcome cb)
  unfolding settle
  settle-IsValid now now' none cb v = record_success-IsValid now cb v
  settle-IsValid now now' (some e) cb v =
      ground (arith, record_success-IsValid now cb v, record_failure-IsValid now now' cb v)

  pub new_circuit_breaker-IsValid :
      (now : ℕ) (name : String) (c : CircuitConfig E)
      → Fits c.failure_threshold
      → Fits c.success_threshold
      → Fits c.open_duration
      → Fits c.half_open_max_reqs
      → IsValid (new_circuit_breaker now name c)
  unfolding new_circuit_breaker
  new_circuit_breaker-IsValid now name c f s d m = ground arith
