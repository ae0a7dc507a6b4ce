-- ===== src/Resilience/Breaker/Traces.antt =====
-- resilience/circuitbreaker.go: a breaker over whole runs. Each method holds the lock from its start
-- to its end, so the calls of all goroutines are one list of atomic calls, in the order in which they
-- take the lock.
use quickgo.Prelude.{
  ℕ, suc, ◌+◌, ◌≤◌, ◌<◌, ◌≡◌, refl, Bool, true, false, Option, none, some, String, List, [], ◌∷◌,
  arith, ◌⊎◌, inl, inr, leb, ◌||◌, map, Bool-cases, ◌∙◌,
}
use quickgo.Prelude.Int.{pos, pos_part}
use quickgo.Prelude.Int64.{max_int}
use quickgo.Resilience.Breaker.{
  CircuitConfig, CircuitState, CircuitBreaker, state_closed, state_open, state_half_open,
  new_circuit_breaker, allow, settle,
}
use quickgo.Resilience.Breaker.Validity.{
  IsValid, allow-IsValid, settle-IsValid, Fits, new_circuit_breaker-IsValid,
}

-- One call of a goroutine: `Allow`, or the recording of what its request came to.
pub data Call (E : Type 0) : Type 0 where
  ask : ℕ → ℕ → Call E
  report : ℕ → ℕ → Option E → Call E

module _ {E : Type 0} (err_circuit_open : E) where
  abbrev pub step : Call E → CircuitBreaker E → CircuitBreaker E
  step (ask now now') cb = (allow err_circuit_open now now' cb).0
  step (report now now' outcome) cb = settle now now' outcome cb

  unfoldable pub run : List (Call E) → CircuitBreaker E → CircuitBreaker E
  run [] cb = cb
  run (c ∷ calls) cb = run calls (step c cb)

  step-IsValid : (c : Call E) (cb : CircuitBreaker E) → IsValid cb → IsValid (step c cb)
  step-IsValid (ask now now') cb v = allow-IsValid err_circuit_open now now' cb v
  step-IsValid (report now now' outcome) cb v = settle-IsValid now now' outcome cb v

  pub run-IsValid :
      (calls : List (Call E)) (cb : CircuitBreaker E) → IsValid cb → IsValid (run calls cb)
  unfolding run
  run-IsValid [] cb v = v
  run-IsValid (c ∷ calls) cb v = run-IsValid calls (step c cb) (step-IsValid c cb v)

  -- Whatever the settings given, as long as they fit 64 bits, and however the calls of all goroutines
  -- interleave, a new breaker's counters stay within 64 bits, the failures in a row stay below their
  -- threshold while it is closed, and in the half-open state the successes in a row stay below theirs
  -- and the count of probes within its limit.
  pub new_circuit_breaker-run-IsValid :
      (now : ℕ) (name : String) (c : CircuitConfig E) (calls : List (Call E))
      → Fits c.failure_threshold
      → Fits c.success_threshold
      → Fits c.open_duration
      → Fits c.half_open_max_reqs
      → IsValid (run calls (new_circuit_breaker now name c))
  new_circuit_breaker-run-IsValid now name c calls f s d m =
      run-IsValid calls _ (new_circuit_breaker-IsValid now name c f s d m)

-- Does an outcome count as a failure under these settings?
abbrev pub failed : {E : Type 0} → CircuitConfig E → Option E → Bool
failed c none = false
failed c (some e) = elim c.is_failure [ some f ↦ f e | none ↦ true ]

-- How many failures the list begins with, and whether `k` failures in a row stand somewhere in it.
abbrev pub leading : List Bool → ℕ
leading [] = 0
leading (true ∷ fs) = suc (leading fs)
leading (false ∷ fs) = 0

abbrev pub has_run : ℕ → List Bool → Bool
has_run k [] = false
has_run k (f ∷ fs) = leb k (leading (f ∷ fs)) || has_run k fs

pub record Report (E : Type 0) : Type 0 where
  pub now : ℕ
  pub now' : ℕ
  pub outcome : Option E

abbrev pub is_open : CircuitState → Bool
is_open state_closed = false
is_open state_open = true
is_open state_half_open = false

leading-has_run : (k : ℕ) (fs : List Bool) → 0 < k → k ≤ leading fs → has_run k fs ≡ true
leading-has_run k [] p h = absurd (omega arith)
leading-has_run k (true ∷ fs) p h = ground arith
leading-has_run k (false ∷ fs) p h = absurd (omega arith)

lt_or_eq : (a b : ℕ) → a ≤ b → (a < b) ⊎ (a ≡ b)
lt_or_eq a b h = ground arith

module _ {E : Type 0} where
  unfoldable pub reports : List (Report E) → CircuitBreaker E → CircuitBreaker E
  reports [] cb = cb
  reports (r ∷ rs) cb = reports rs (settle r.now r.now' r.outcome cb)

  abbrev pub failures : CircuitConfig E → List (Report E) → List Bool
  failures c rs = map (λ r. failed c r.outcome) rs

  settle_open :
      (now now' : ℕ) (o : Option E) (cb : CircuitBreaker E)
      → cb.state ≡ state_open
      → (settle now now' o cb).state ≡ state_open
  unfolding settle
  settle_open now now' o cb h = ground arith

  reports_open :
      (rs : List (Report E)) (cb : CircuitBreaker E)
      → cb.state ≡ state_open
      → (reports rs cb).state ≡ state_open
  unfolding reports
  reports_open [] cb h = h
  reports_open (r ∷ rs) cb h = reports_open rs _ (settle_open r.now r.now' r.outcome cb h)

  -- what one report does to a closed breaker whose streak is `n`
  settle_closed_ok :
      (now now' : ℕ) (o : Option E) (cb : CircuitBreaker E)
      → cb.state ≡ state_closed
      → failed cb.config o ≡ false
      → ((settle now now' o cb).state ≡ state_closed)
        × ((settle now now' o cb).failure_count ≡ pos 0)
        × ((settle now now' o cb).config ≡ cb.config)
  unfolding settle
  settle_closed_ok now now' o cb h f = ground arith

  -- a failure below the threshold, and the failure that reaches it
  settle_closed_failed :
      (now now' : ℕ) (o : Option E) (cb : CircuitBreaker E) (n k : ℕ)
      → cb.state ≡ state_closed
      → cb.failure_count ≡ pos n
      → cb.config.failure_threshold ≡ pos k
      → k ≤ max_int
      → suc n < k
      → failed cb.config o ≡ true
      → ((settle now now' o cb).state ≡ state_closed)
        × ((settle now now' o cb).failure_count ≡ pos (suc n))
        × ((settle now now' o cb).config ≡ cb.config)
  unfolding settle
  settle_closed_failed now now' none cb n k h c t m lt f = cc
  settle_closed_failed now now' (some e) cb n k h c t m lt f = ground arith

  settle_closed_trips :
      (now now' : ℕ) (o : Option E) (cb : CircuitBreaker E) (n k : ℕ)
      → cb.state ≡ state_closed
      → cb.failure_count ≡ pos n
      → cb.config.failure_threshold ≡ pos k
      → k ≤ max_int
      → suc n ≡ k
      → failed cb.config o ≡ true
      → (settle now now' o cb).state ≡ state_open
  unfolding settle
  settle_closed_trips now now' none cb n k h c t m lt f = cc
  settle_closed_trips now now' (some e) cb n k h c t m lt f = ground arith

  -- From a streak of `n` failures the breaker opens if the reports complete the streak, or hold a
  -- run of `k` failures of their own.
  streak_opens :
      (rs : List (Report E)) (cb : CircuitBreaker E) (s : CircuitConfig E) (n k : ℕ)
      → cb.config ≡ s
      → s.failure_threshold ≡ pos k
      → k ≤ max_int
      → cb.state ≡ state_closed
      → cb.failure_count ≡ pos n
      → n < k
      → is_open (reports rs cb).state
        ≡ (leb k (n + leading (failures s rs)) || has_run k (failures s rs))
  unfolding reports
  streak_opens [] cb s n k e t m h c lt = rw h (ground arith)
  streak_opens (r ∷ rs) cb s n k e t m h c lt = elim (Bool-cases (failed s r.outcome)) [
    | inl f ↦ elim (lt_or_eq (suc n) k lt) [
      | inl below ↦
          let (h', c', e') =
            settle_closed_failed r.now r.now' r.outcome cb n k h c (rw e t) m below (rw e f) in
          rw f (
            ground (
              arith,
              streak_opens rs (settle r.now r.now' r.outcome cb) s (suc n) k (e' ∙ e) t m h' c'
                  below,
            ))
      | inr last ↦
          let o = settle_closed_trips r.now r.now' r.outcome cb n k h c (rw e t) m last (rw e f) in
          rw (f, reports_open rs (settle r.now r.now' r.outcome cb) o) (ground arith)
    ]
    | inr f ↦
        let (h', c', e') = settle_closed_ok r.now r.now' r.outcome cb h (rw e f) in
        rw f (
          ground (
            arith,
            streak_opens rs (settle r.now r.now' r.outcome cb) s 0 k (e' ∙ e) t m h' c'
                (omega arith),
            leading-has_run k (failures s rs),
          ))
  ]

  -- A new breaker that is told outcomes, and asked nothing meanwhile, ends up open exactly when
  -- somewhere among the outcomes stand as many failures in a row as the threshold in effect says.
  -- The threshold given fits 64 bits.
  pub new_circuit_breaker-opens :
      (now : ℕ) (name : String) (c : CircuitConfig E) (rs : List (Report E))
      → Fits c.failure_threshold
      → let cb = new_circuit_breaker now name c in
        is_open (reports rs cb).state
        ≡ has_run (pos_part cb.config.failure_threshold) (failures cb.config rs)
  unfolding new_circuit_breaker
  new_circuit_breaker-opens now name c rs fit =
      let cb = new_circuit_breaker now name c in
      let k = pos_part cb.config.failure_threshold in
      let fs = failures cb.config rs in
      let p : (cb.config.failure_threshold ≡ pos k) × (k ≤ max_int) × (0 < k) =
        (ground arith, ground arith, ground arith) in
      streak_opens rs cb cb.config 0 k refl p.0 p.1 refl refl p.2
      ∙ ground (arith, leading-has_run k fs p.2)
