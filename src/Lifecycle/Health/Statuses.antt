-- ===== src/Lifecycle/Health/Statuses.antt =====
-- lifecycle/health.go: what the results of a `Check` say of the whole, in whatever order they come.
use quickgo.Prelude.{
  ℕ, ◌+◌, ◌≡◌, refl, ap, sym, ◌∙◌, ltb, Bool, true, false, not, ◌||◌, List, [], ◌∷◌, String, arith,
  if◌then◌else◌,
}
use quickgo.Prelude.Counts.{one_if, times}
use quickgo.Lifecycle.Health.{
  HealthStatus, unknown, healthy, unhealthy, degraded, other, HealthResult, flag_status, flags_in,
  overall_status, is_unhealthy, is_ready,
}

abbrev pub is_degraded : HealthStatus → Bool
is_degraded degraded = true
is_degraded unhealthy = false
is_degraded unknown = false
is_degraded healthy = false
is_degraded (other n) = false

-- How many results have a kind of status
abbrev pub count_of : {V : Type 0} → (HealthStatus → Bool) → List (String × HealthResult V) → ℕ
count_of kind = times (λ result. one_if (kind result.1.status))

-- The worst of some statuses, of which so many are unhealthy and so many are degraded
abbrev pub worst : ℕ → ℕ → HealthStatus
worst sick weak = if ltb 0 sick then unhealthy else if ltb 0 weak then degraded else healthy

flag_status-or :
    (status : HealthStatus) (u d : Bool)
    → flag_status status (u, d) ≡ (u || is_unhealthy status, d || is_degraded status)
unfolding flag_status
flag_status-or unhealthy u d = ground arith
flag_status-or degraded u d = ground arith
flag_status-or unknown u d = ground arith
flag_status-or healthy u d = ground arith
flag_status-or (other n) u d = ground arith

or_ltb : (u a : Bool) (n : ℕ) → ((u || a) || ltb 0 n) ≡ (u || ltb 0 (one_if a + n))
or_ltb u a n = ground arith

is_unhealthy-worst : (sick weak : ℕ) → is_unhealthy (worst sick weak) ≡ ltb 0 sick
is_unhealthy-worst sick weak = ground arith

module _ {V : Type 0} where
  flags_in-counted :
      (results : List (String × HealthResult V)) (u d : Bool)
      → flags_in results (u, d)
        ≡ (u || ltb 0 (count_of is_unhealthy results), d || ltb 0 (count_of is_degraded results))
  unfolding flags_in
  flags_in-counted [] u d = ground arith
  flags_in-counted ((name, result) ∷ results) u d =
      let n = count_of is_unhealthy results in
      let m = count_of is_degraded results in
      ap (flags_in results) (flag_status-or result.status u d)
      ∙ flags_in-counted results (u || is_unhealthy result.status) (d || is_degraded result.status)
      ∙ (λ i. (or_ltb u (is_unhealthy result.status) n i, or_ltb d (is_degraded result.status) m i))

  is_ready-counted :
      (results : List (String × HealthResult V))
      → is_ready results ≡ not (ltb 0 (count_of is_unhealthy results))
  unfolding is_ready
  is_ready-counted [] = refl
  is_ready-counted ((name, result) ∷ results) = ground (arith, is_ready-counted results)

  -- `OverallStatus` is unhealthy if any result is, else degraded if any is, else healthy, in whatever order
  -- the results come, and `IsReady` says that it is ready exactly if `OverallStatus` is not unhealthy.
  pub overall_status-worst :
      (results : List (String × HealthResult V))
      → (overall_status results
          ≡ worst (count_of is_unhealthy results) (count_of is_degraded results))
        × (is_ready results ≡ not (is_unhealthy (overall_status results)))
  unfolding overall_status
  overall_status-worst results = (
    overall,
    is_ready-counted results
        ∙ ap not (sym (is_unhealthy-worst n m) ∙ ap is_unhealthy (sym overall)),
  )
    where
      n : ℕ
      n = count_of is_unhealthy results

      m : ℕ
      m = count_of is_degraded results

      overall : overall_status results ≡ worst n m
      overall =
          ap
            (λ (flags : Bool × Bool).
              if flags.0 then unhealthy else if flags.1 then degraded else healthy)
            (flags_in-counted results false false)
