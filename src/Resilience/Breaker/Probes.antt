-- ===== src/Resilience/Breaker/Probes.antt =====
-- resilience/circuitbreaker.go: the limit on probes in the half-open state, against the requests that
-- really run. A breaker does not know which request a report belongs to, so a request that was let
-- through before the breaker opened and reports late is counted like a probe.
use quickgo.Prelude.{ℕ, suc, ◌+◌, ◌-◌, ◌≤◌, ◌<◌, ◌≡◌, refl, Option, none, some, arith}
use quickgo.Prelude.Int.{pos_part}
use quickgo.Resilience.Breaker.{
  CircuitState, CircuitBreaker, state_closed, state_open, state_half_open, allow, settle,
}
use quickgo.Resilience.Breaker.Validity.{IsValid, allow-IsValid, settle-IsValid}

-- A breaker with the requests around it: `running` probes let through in the present half-open period
-- that have not reported, the number `late` of reports in this period by requests of an earlier one, and
-- the number `earlier` of requests let through before this period that have not reported. Outside the
-- half-open state the first two are 0.
pub record System (E : Type 0) : Type 0 where
  pub breaker : CircuitBreaker E
  pub running : ℕ
  pub late : ℕ
  pub earlier : ℕ

abbrev pub in_half_open : CircuitState → ℕ → ℕ
in_half_open state_half_open n = n
in_half_open state_closed n = 0
in_half_open state_open n = 0

-- What does not belong to a half-open period
abbrev pub outside : CircuitState → ℕ → ℕ
outside state_half_open n = 0
outside state_closed n = n
outside state_open n = n

-- The requests around a breaker after `Allow` let one through, after a probe reported, and after an earlier
-- request reported.
abbrev pub with_request : {E : Type 0} → System E → CircuitBreaker E → System E
with_request s cb = record {
  breaker = cb;
  running = in_half_open cb.state (suc s.running);
  late = in_half_open cb.state s.late;
  earlier = s.earlier + outside cb.state (suc s.running);
}

abbrev pub without_probe : {E : Type 0} → System E → CircuitBreaker E → System E
without_probe s cb = record {
  breaker = cb;
  running = in_half_open cb.state (s.running - 1);
  late = in_half_open cb.state s.late;
  earlier = s.earlier + outside cb.state (s.running - 1);
}

abbrev pub without_earlier : {E : Type 0} → System E → CircuitBreaker E → System E
without_earlier s cb = record {
  breaker = cb;
  running = in_half_open cb.state s.running;
  late = in_half_open cb.state (suc s.late);
  earlier = s.earlier - 1 + outside cb.state s.running;
}

module _ {E : Type 0} (err_circuit_open : E) where
  -- `Allow` lets a request through or refuses it; a probe reports; an earlier request reports.
  pub data Step : System E → System E → Type 0 where
    refused :
        (s : System E) (now now' : ℕ) (cb : CircuitBreaker E) (e : E)
        → allow err_circuit_open now now' s.breaker ≡ (cb, some e)
        → Step s (record s { breaker = cb })
    let_through :
        (s : System E) (now now' : ℕ) (cb : CircuitBreaker E)
        → allow err_circuit_open now now' s.breaker ≡ (cb, none)
        → Step s (with_request s cb)
    probe_reports :
        (s : System E) (now now' : ℕ) (o : Option E) (cb : CircuitBreaker E)
        → 0 < s.running
        → settle now now' o s.breaker ≡ cb
        → Step s (without_probe s cb)
    earlier_reports :
        (s : System E) (now now' : ℕ) (o : Option E) (cb : CircuitBreaker E)
        → 0 < s.earlier
        → settle now now' o s.breaker ≡ cb
        → Step s (without_earlier s cb)

  pub data Reach (s : System E) : System E → Type 0 where
    here : Reach s s
    next : {t u : System E} → Reach s t → Step t u → Reach s u

-- The breaker's count of probes falls short of the probes that run by at most the late reports.
pub record IsAccounted {E : Type 0} (s : System E) : Type 0 where
  pub valid : IsValid s.breaker
  pub running : s.running ≤ pos_part s.breaker.half_open_reqs + s.late
  pub idle : in_half_open s.breaker.state s.running ≡ s.running
  pub none_late : in_half_open s.breaker.state s.late ≡ s.late

in_half_open_twice :
    (s : CircuitState) (n : ℕ) → in_half_open s (in_half_open s n) ≡ in_half_open s n
in_half_open_twice state_closed n = refl
in_half_open_twice state_open n = refl
in_half_open_twice state_half_open n = refl

module _ {E : Type 0} (err_circuit_open : E) where
  allow_counts :
      (now now' : ℕ) (cb cb' : CircuitBreaker E)
      → IsValid cb
      → allow err_circuit_open now now' cb ≡ (cb', none)
      → (running late : ℕ) → running ≤ pos_part cb.half_open_reqs + late
      → in_half_open cb.state running ≡ running
      → in_half_open cb'.state (suc running)
        ≤ pos_part cb'.half_open_reqs + in_half_open cb'.state late
  unfolding allow
  allow_counts now now' cb cb' v e running late h i = ground arith

  settle_counts :
      (now now' : ℕ) (o : Option E) (cb : CircuitBreaker E)
      → IsValid cb
      → (running late : ℕ) → running ≤ pos_part cb.half_open_reqs + late
      → in_half_open cb.state running ≡ running
      → let cb' = settle now now' o cb in
        (in_half_open cb'.state (running - 1)
          ≤ pos_part cb'.half_open_reqs + in_half_open cb'.state late)
        × (in_half_open cb'.state running
            ≤ pos_part cb'.half_open_reqs + in_half_open cb'.state (suc late))
  unfolding settle
  settle_counts now now' none cb v running late h i = ground arith
  settle_counts now now' (some e) cb v running late h i = ground arith

  refused_unchanged :
      (now now' : ℕ) (cb cb' : CircuitBreaker E) (e : E)
      → allow err_circuit_open now now' cb ≡ (cb', some e)
      → cb' ≡ cb
  unfolding allow
  refused_unchanged now now' cb cb' e h = ground arith

  Step-IsAccounted : {s t : System E} → Step err_circuit_open s t → IsAccounted s → IsAccounted t
  Step-IsAccounted (refused s now now' cb e r) a =
      rw (refused_unchanged now now' s.breaker cb e r) a
  Step-IsAccounted (let_through s now now' cb r) a = record {
    valid = rw r at (allow-IsValid err_circuit_open now now' s.breaker a.valid);
    running = allow_counts now now' s.breaker cb a.valid r s.running s.late a.running a.idle;
    idle = in_half_open_twice cb.state _;
    none_late = in_half_open_twice cb.state _;
  }
  Step-IsAccounted (probe_reports s now now' o cb p r) a = record {
    valid = rw r at (settle-IsValid now now' o s.breaker a.valid);
    running =
        rw r at ((settle_counts now now' o s.breaker a.valid s.running s.late a.running a.idle).0);
    idle = in_half_open_twice cb.state _;
    none_late = in_half_open_twice cb.state _;
  }
  Step-IsAccounted (earlier_reports s now now' o cb p r) a = record {
    valid = rw r at (settle-IsValid now now' o s.breaker a.valid);
    running =
        rw r at ((settle_counts now now' o s.breaker a.valid s.running s.late a.running a.idle).1);
    idle = in_half_open_twice cb.state _;
    none_late = in_half_open_twice cb.state _;
  }

  Reach-IsAccounted : {s t : System E} → IsAccounted s → Reach err_circuit_open s t → IsAccounted t
  Reach-IsAccounted a here = a
  Reach-IsAccounted a (next r st) = Step-IsAccounted st (Reach-IsAccounted a r)

  -- However the requests interleave, the probes that run in a half-open period are at most the limit
  -- on them plus the reports that came in this period from requests of an earlier one.
  pub running-le-max_late :
      {s t : System E}
      → IsAccounted s
      → Reach err_circuit_open s t
      → t.breaker.state ≡ state_half_open
      → t.running ≤ pos_part t.breaker.config.half_open_max_reqs + t.late
  running-le-max_late a r h =
      let b = Reach-IsAccounted a r in omega (arith, b.running, b.valid.half_open_within h)

  -- One late report breaks the limit: from a half-open breaker that is at its limit, with all its probes
  -- running, a request of before still to report and more than one success short of closing, the report of
  -- this request's success and one `Allow`, whatever the clock shows, are two steps. `Allow` lets a request
  -- through, the breaker is half-open still, and one probe more runs than the limit.
  pub late_report-breaks_limit :
      (s : System E) (now now' asked asked' : ℕ)
      → IsAccounted s
      → s.breaker.state ≡ state_half_open
      → s.breaker.half_open_reqs ≡ s.breaker.config.half_open_max_reqs
      → s.running ≡ pos_part s.breaker.half_open_reqs
      → 0 < s.earlier
      → pos_part s.breaker.success_count + 1 < pos_part s.breaker.config.success_threshold
      → let s₁ = without_earlier s (settle now now' none s.breaker) in
        let answer = allow err_circuit_open asked asked' s₁.breaker in
        let s₂ = with_request s₁ answer.0 in
        Step err_circuit_open s s₁
        × Step err_circuit_open s₁ s₂
        × (answer.1 ≡ none)
        × (s₂.breaker.state ≡ state_half_open)
        × (s₂.running ≡ pos_part s₂.breaker.config.half_open_max_reqs + 1)
  unfolding settle allow
  late_report-breaks_limit s now now' asked asked' a h full all before short =
      let s₁ = without_earlier s (settle now now' none s.breaker) in
      let cb₂ = (allow err_circuit_open asked asked' s₁.breaker).0 in
      (
        earlier_reports s now now' none _ before refl,
        let_through s₁ asked asked' cb₂ (ground arith),
        ground arith,
        ground arith,
        ground arith,
      )
