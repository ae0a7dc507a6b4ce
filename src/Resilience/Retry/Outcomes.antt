-- ===== src/Resilience/Retry/Outcomes.antt =====
-- resilience/retry.go: when the loop ends, and with what.
use quickgo.Prelude.{
  ◌==◌, ==_iff, ℕ, zero, suc, ◌+◌, ◌-◌, ◌≤◌, ◌<◌, ◌≡◌, refl, sym, subst, ◌⊎◌, inl, inr, Bool, true,
  false, Bool-cases, Option, none, some, if_both, arith, ap, ◌∙◌, if◌then◌else◌,
}
use quickgo.Prelude.Int.{ℤ, pos_part}
use quickgo.Resilience.Retry.{
  RetryConfig, Retried, next_delay, is_declined, return_at, wait, attempt_once, attempt_last,
  retry_from, do_with_result,
}

module _ {E : Type 0} (retry_if : Option (E → Bool)) (fn ctx_err : ℕ → Option E) where
  -- An attempt that is followed by another: it fails, may be tried again, and its wait is not cut short.
  pub record IsRetried (i : ℕ) : Type 0 where
    pub error : E
    pub fails : fn i ≡ some error
    pub allowed : is_declined retry_if error ≡ false
    pub waited : ctx_err i ≡ none

  -- The error of the attempt before one, in a loop from `first` on with the error `given` before it
  abbrev pub error_before : ℕ → Option E → ℕ → Option E
  error_before first given i = if i == first then given else fn (i - 1)

  -- The last attempt succeeds, and the last error is that of the one before; or it fails, and its error is
  -- returned since no other is allowed or left; or the wait after it is cut short, and the context's error is
  -- returned, but the last error is that of the attempt.
  abbrev pub Ending : ℕ → Option E → ℕ → Retried E → Type 0
  Ending first given last r =
      ((fn r.result.attempts ≡ none)
        × (r.err ≡ none)
        × (r.result.last_err ≡ error_before first given r.result.attempts))
      ⊎ ((e : E) × (fn r.result.attempts ≡ some e)
          × (r.result.last_err ≡ some e)
          × (((r.err ≡ some e) × ((is_declined retry_if e ≡ true) ⊎ (r.result.attempts ≡ last)))
              ⊎ ((c : E) × (ctx_err r.result.attempts ≡ some c) × (r.err ≡ some c))))

  pub record IsOutcome (since : ℕ → ℤ) (first : ℕ) (given : Option E) (last : ℕ) (r : Retried E)
      : Type 0 where
    pub from : first ≤ r.result.attempts
    pub to : r.result.attempts ≤ last
    pub before : (i : ℕ) → first ≤ i → i < r.result.attempts → IsRetried i
    pub ending : Ending first given last r
    pub duration : r.result.duration ≡ since r.result.attempts

module _ {E : Type 0} (since : ℕ → ℤ) (retry_if : Option (E → Bool))
    (fn ctx_err : ℕ → Option E) where
  abbrev Outcome : ℕ → Option E → ℕ → Retried E → Type 0
  Outcome first given last r = IsOutcome retry_if fn ctx_err since first given last r

  at_once :
      (i last : ℕ) (given : Option E) (r : Retried E)
      → i ≤ last
      → r.result.attempts ≡ i
      → r.result.duration ≡ since r.result.attempts
      → Ending retry_if fn ctx_err i given last r
      → Outcome i given last r
  at_once i last given r le e d ending = record {
    from = omega (arith, e);
    to = omega (arith, e);
    before = λ j h k. absurd (omega (arith, e));
    ending = ending;
    duration = d;
  }

  eq_self : (i : ℕ) → (i == i) ≡ true
  eq_self i = ground arith

  -- The error before a later attempt is the same, whether the loop is seen from `i` on or from the next one.
  error_before-suc :
      (i a : ℕ) (given : Option E) (e : E)
      → fn i ≡ some e
      → suc i ≤ a
      → error_before retry_if fn ctx_err (suc i) (some e) a
        ≡ error_before retry_if fn ctx_err i given a
  error_before-suc i a given e fails le = elim (Bool-cases (a == suc i)) [
    | inl same ↦
        let next : a ≡ suc i = (==_iff a (suc i)).0 same in
        let before : fn (a - 1) ≡ some e = ap fn (omega (arith, next)) ∙ fails in
        let later : (a == i) ≡ false = ground (arith, next) in rw same (rw later (sym before))
    | inr differs ↦ let later : (a == i) ≡ false = ground (arith, le) in rw differs (rw later refl)
  ]

  retried :
      (i last : ℕ) (given : Option E) (r : Retried E) (delay : ℤ)
      (h : IsRetried retry_if fn ctx_err i)
      → Outcome (suc i) (some h.error) last r
      → Outcome i given last (wait since i delay h.error none r)
  unfolding wait
  retried i last given r delay here o = record {
    from = omega (arith, o.from);
    to = o.to;
    before = λ j h k. elim (Bool-cases (i == j)) [
      | inl e ↦ subst (IsRetried retry_if fn ctx_err) ((==_iff i j).0 e) here
      | inr e ↦ o.before j (after_first j e h) k
    ];
    ending = later o.ending;
    duration = o.duration;
  }
    where
      after_first : (j : ℕ) → (i == j) ≡ false → i ≤ j → suc i ≤ j
      after_first j e h = ground arith

      later :
          Ending retry_if fn ctx_err (suc i) (some here.error) last r
          → Ending retry_if fn ctx_err i given last r
      later (inl (ok, no_err, e)) =
          inl (
            ok,
            no_err,
            e ∙ error_before-suc i r.result.attempts given here.error here.fails o.from,
          )
      later (inr failed) = inr failed

  wait_lem :
      (i last : ℕ) (given : Option E) (delay : ℤ) (e : E) (cut : Option E) (r : Retried E)
      → i ≤ last
      → fn i ≡ some e
      → is_declined retry_if e ≡ false
      → ctx_err i ≡ cut
      → Outcome (suc i) (some e) last r
      → Outcome i given last (wait since i delay e cut r)
  unfolding wait return_at
  wait_lem i last given delay e none r le fails allowed waited o =
      retried i last given r delay
        (record { error = e; fails = fails; allowed = allowed; waited = waited }) o
  wait_lem i last given delay e (some c) r le fails allowed waited o =
      at_once i last given _ le refl refl (inr (e, fails, refl, inr (c, waited, refl)))

  success :
      (i last : ℕ) (given : Option E)
      → i ≤ last
      → fn i ≡ none
      → Outcome i given last (return_at since i given none)
  unfolding return_at
  success i last given le a =
      at_once i last given _ le refl refl (inl (a, refl, rw (eq_self i) refl))

  attempt_once_lem :
      (i last : ℕ) (given : Option E) (delay : ℤ) (answer : Option E) (rest : E → Retried E)
      → i ≤ last
      → fn i ≡ answer
      → ((e : E) → Outcome (suc i) (some e) last (rest e))
      → Outcome i given last (attempt_once since retry_if i delay given answer (ctx_err i) rest)
  unfolding attempt_once return_at
  attempt_once_lem i last given delay none rest le a o = success i last given le a
  attempt_once_lem i last given delay (some e) rest le a o =
      if_both (Outcome i given last) (is_declined retry_if e)
        (λ d. at_once i last given _ le refl refl (inr (e, a, refl, inl (refl, inl d))))
        (λ d. wait_lem i last given delay e (ctx_err i) (rest e) le a d refl (o e))

  attempt_last_lem :
      (i : ℕ) (given answer : Option E)
      → fn i ≡ answer
      → Outcome i given i (attempt_last since i given answer)
  unfolding attempt_last return_at
  attempt_last_lem i given none a = success i i given (omega arith) a
  attempt_last_lem i given (some e) a =
      at_once i i given _ (omega arith) refl refl (inr (e, a, refl, inl (refl, inr refl)))

module _ {E : Type 0} (config : RetryConfig E) (scale : ℤ → ℤ) (jitter : ℤ → ℕ → ℤ) (since : ℕ → ℤ)
    (fn ctx_err : ℕ → Option E) where
  retry_from-IsOutcome :
      (left i last : ℕ) (delay : ℤ) (given : Option E)
      → i + left ≡ last
      → IsOutcome config.retry_if fn ctx_err since i given last
          (retry_from config scale jitter since fn ctx_err left i delay given)
  unfolding retry_from
  retry_from-IsOutcome zero i last delay given e =
      let same : i ≡ last = omega (arith, e) in
      subst
        (λ n.
          IsOutcome config.retry_if fn ctx_err since i given n (attempt_last since i given (fn i)))
        same (attempt_last_lem since config.retry_if fn ctx_err i given (fn i) refl)
  retry_from-IsOutcome (suc left) i last delay given e =
      attempt_once_lem since config.retry_if fn ctx_err i last given (jitter delay i) (fn i) _
        (omega (arith, e)) refl
        (λ err.
          retry_from-IsOutcome left (suc i) last (next_delay config scale delay) (some err)
            (omega (arith, e)))

  -- With a positive limit on the attempts, the loop makes from 1 to this many. Each attempt but the last
  -- fails with an error that may be retried, and is waited after. The last one succeeds, and nothing is
  -- returned; or it fails, and its error is returned because it may not be retried or no attempt is left;
  -- or the wait after it is cut short, and the error of the context is returned. The last error of the result
  -- is in each case that of the last attempt that failed, and its duration the time since the start.
  pub do_with_result-IsOutcome :
      0 < pos_part config.max_attempts
      → IsOutcome config.retry_if fn ctx_err since 1 none
          (pos_part config.max_attempts)
          (do_with_result config scale jitter since fn ctx_err)
  unfolding do_with_result
  do_with_result-IsOutcome h =
      retry_from-IsOutcome (pos_part config.max_attempts - 1) 1 (pos_part config.max_attempts)
        config.initial_delay none (omega arith)
