-- ===== src/Resilience/Breaker.antt =====
-- resilience/circuitbreaker.go: the circuit breaker. A method that takes the lock and mutates
-- `*CircuitBreaker` is a function to the new record. The clock is read up to twice in one call, so a
-- method takes its two readings, `now` and `now'`. The type `E` is that of Go's `error` values, and
-- `none` is nil.
pub mod Validity
pub mod Traces
pub mod Requests
pub mod Recovery
pub mod Probes
use quickgo.Prelude.{ℕ, Bool, true, Option, none, some, String, if◌then◌else◌}
use quickgo.Prelude.Int.{ℤ, pos, ltb_ℤ}
use quickgo.Prelude.Int64.{leb_ℤ, int_inc, int_dec, sub_time}

pub data CircuitState : Type 0 where
  state_closed state_open state_half_open : CircuitState

unfoldable pub state_string : CircuitState → String
state_string state_closed = "closed"
state_string state_open = "open"
state_string state_half_open = "half-open"

pub record CircuitConfig (E : Type 0) : Type 0 where
  pub failure_threshold : ℤ
  pub success_threshold : ℤ
  pub open_duration : ℤ
  pub half_open_max_reqs : ℤ
  pub is_failure : Option (E → Bool)

pub record CircuitBreaker (E : Type 0) : Type 0 where
  pub name : String
  pub state : CircuitState
  pub failure_count : ℤ
  pub success_count : ℤ
  pub half_open_reqs : ℤ
  pub last_failure : ℕ
  pub last_state_time : ℕ
  pub config : CircuitConfig E

-- `if x <= 0 { x = d }`
abbrev or_default : ℤ → ℕ → ℤ
or_default x d = if leb_ℤ x (pos 0) then pos d else x

module _ {E : Type 0} where
  unfoldable pub default_circuit_config : CircuitConfig E
  default_circuit_config = record {
    failure_threshold = pos 5;
    success_threshold = pos 3;
    open_duration = pos 30000000000;
    half_open_max_reqs = pos 1;
    is_failure = none;
  }

  unfoldable pub new_circuit_breaker : ℕ → String → CircuitConfig E → CircuitBreaker E
  new_circuit_breaker now name config = record {
    name = name;
    state = state_closed;
    failure_count = pos 0;
    success_count = pos 0;
    half_open_reqs = pos 0;
    last_failure = 0;
    last_state_time = now;
    config = record config {
      failure_threshold = or_default config.failure_threshold 5;
      success_threshold = or_default config.success_threshold 3;
      open_duration = or_default config.open_duration 30000000000;
      half_open_max_reqs = or_default config.half_open_max_reqs 1;
    };
  }

  unfoldable pub to_open : ℕ → CircuitBreaker E → CircuitBreaker E
  to_open now cb = record cb {
    state = state_open;
    last_state_time = now;
    success_count = pos 0;
    half_open_reqs = pos 0;
  }

  unfoldable pub to_half_open : ℕ → CircuitBreaker E → CircuitBreaker E
  to_half_open now cb = record cb {
    state = state_half_open;
    last_state_time = now;
    success_count = pos 0;
    failure_count = pos 0;
    half_open_reqs = pos 0;
  }

  unfoldable pub to_closed : ℕ → CircuitBreaker E → CircuitBreaker E
  to_closed now cb = record cb {
    state = state_closed;
    last_state_time = now;
    failure_count = pos 0;
    success_count = pos 0;
    half_open_reqs = pos 0;
  }

  unfoldable pub finish_half_open_request : CircuitBreaker E → CircuitBreaker E
  finish_half_open_request cb =
      if ltb_ℤ (pos 0) cb.half_open_reqs
      then record cb { half_open_reqs = int_dec cb.half_open_reqs }
      else cb

  -- the `switch` of `RecordSuccess`
  success_in : CircuitState → ℕ → CircuitBreaker E → CircuitBreaker E
  unfolding to_closed finish_half_open_request int_inc int_dec
  success_in state_closed now cb = record cb { failure_count = pos 0 }
  success_in state_open now cb = cb
  success_in state_half_open now cb =
      let cb₁ = finish_half_open_request cb in
      let cb₂ = record cb₁ { success_count = int_inc cb₁.success_count } in
      if leb_ℤ cb₂.config.success_threshold cb₂.success_count then to_closed now cb₂ else cb₂

  unfoldable pub record_success : ℕ → CircuitBreaker E → CircuitBreaker E
  unfolding success_in
  record_success now cb = success_in cb.state now cb

  -- the `switch` of `RecordFailure`
  failure_in : CircuitState → ℕ → CircuitBreaker E → CircuitBreaker E
  unfolding to_open finish_half_open_request int_inc int_dec
  failure_in state_closed now cb =
      let cb₁ = record cb { failure_count = int_inc cb.failure_count } in
      if leb_ℤ cb₁.config.failure_threshold cb₁.failure_count then to_open now cb₁ else cb₁
  failure_in state_open now cb = cb
  failure_in state_half_open now cb = to_open now (finish_half_open_request cb)

  unfoldable pub record_failure : ℕ → ℕ → CircuitBreaker E → CircuitBreaker E
  unfolding failure_in
  record_failure now now' cb = failure_in cb.state now' (record cb { last_failure = now })

  -- the method `isFailure`, asked of an error that is not nil
  unfoldable pub is_failure : CircuitBreaker E → E → Bool
  is_failure cb e = elim cb.config.is_failure [ some f ↦ f e | none ↦ true ]

  -- What `Execute` does with the outcome of `fn`, on the breaker as it is when `fn` has returned.
  unfoldable pub settle : ℕ → ℕ → Option E → CircuitBreaker E → CircuitBreaker E
  unfolding record_success record_failure is_failure
  settle now now' none cb = record_success now cb
  settle now now' (some e) cb =
      if is_failure cb e then record_failure now now' cb else record_success now cb

-- `err_circuit_open` is the package's variable `ErrCircuitOpen`.
module _ {E : Type 0} (err_circuit_open : E) where
  -- the `switch` of `Allow`
  allow_in : CircuitState → ℕ → ℕ → CircuitBreaker E → CircuitBreaker E × Option E
  unfolding to_half_open int_inc sub_time
  allow_in state_closed now now' cb = (cb, none)
  allow_in state_open now now' cb =
      let cb₁ = to_half_open now' cb in
      if leb_ℤ cb.config.open_duration (sub_time now cb.last_state_time)
      then (record cb₁ { half_open_reqs = int_inc cb₁.half_open_reqs }, none)
      else (cb, some err_circuit_open)
  allow_in state_half_open now now' cb =
      if leb_ℤ cb.config.half_open_max_reqs cb.half_open_reqs
      then (cb, some err_circuit_open)
      else (record cb { half_open_reqs = int_inc cb.half_open_reqs }, none)

  unfoldable pub allow : ℕ → ℕ → CircuitBreaker E → CircuitBreaker E × Option E
  unfolding allow_in
  allow now now' cb = allow_in cb.state now now' cb

  -- `Execute`. `fn` is a call outside the lock: it hands back its error and the breaker as the calls
  -- of other goroutines have left it meanwhile.
  unfoldable pub execute :
      ℕ
      → ℕ
      → ℕ
      → ℕ
      → (CircuitBreaker E → Option E × CircuitBreaker E)
      → CircuitBreaker E
      → CircuitBreaker E × Option E
  unfolding allow settle
  execute t₀ t₁ t₂ t₃ fn cb =
      let (cb₁, refused) = allow t₀ t₁ cb in
      elim refused [
        | some e ↦ (cb₁, some e)
        | none ↦ let (err, cb₂) = fn cb₁ in (settle t₂ t₃ err cb₂, err)
      ]

-- `Stats`, the snapshot of a breaker.
pub record Stats (E : Type 0) : Type 0 where
  pub name : String
  pub state : String
  pub failure_count : ℤ
  pub success_count : ℤ
  pub half_open_reqs : ℤ
  pub last_failure : ℕ
  pub config : CircuitConfig E

unfoldable pub stats : {E : Type 0} → CircuitBreaker E → Stats E
unfolding state_string
stats cb = record {
  name = cb.name;
  state = state_string cb.state;
  failure_count = cb.failure_count;
  success_count = cb.success_count;
  half_open_reqs = cb.half_open_reqs;
  last_failure = cb.last_failure;
  config = cb.config;
}
