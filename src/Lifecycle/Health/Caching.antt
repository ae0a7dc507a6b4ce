-- ===== src/Lifecycle/Health/Caching.antt =====
-- lifecycle/health.go: what `LastResult` has after a `Check`.
use quickgo.Prelude.{
  ℕ, suc, ◌≤◌, ◌≡◌, ◌⊎◌, inl, inr, refl, ap, subst, ◌∙◌, Option, some, List, [], ◌∷◌, String, arith,
  get_elem?, Bool-cases,
}
use quickgo.Prelude.Dict.{
  lookup, insert, ◌is◌, eq_of_is, ne_of_is, lookup-insert_self, lookup-insert_ne,
}
use quickgo.Lifecycle.Health.{HealthResult, HealthChecker, collect, update_cache}
use quickgo.Lifecycle.Health.Checking.{Op, start, run}
use quickgo.Lifecycle.Health.Checking.Accounts.{among, results_of}
use quickgo.Lifecycle.Health.Checking.Accounts.{work}
use quickgo.Lifecycle.Health.Checking.Runs.{results_of-run}

-- The last result of a name is as before and the name has no check, or the name has checks and one of the
-- results that arrived is there.
abbrev pub Cached :
    {V : Type 0}
    → String
    → ℕ
    → List (String × HealthResult V)
    → Option (HealthResult V)
    → Option (HealthResult V)
    → Type 0
Cached {V = V} name checks arrived before after =
    ((checks ≡ 0) × (after ≡ before))
    ⊎ ((1 ≤ checks)
        × (i : ℕ) × (result : HealthResult V) × (get_elem? arrived i ≡ some (name, result))
        × (after ≡ some result))

module _ {V : Type 0} (name : String) where
  collect-Cached :
      (arrived old : List (String × HealthResult V))
      → Cached name
          (results_of name arrived)
          arrived
          (lookup name old)
          (lookup name (collect arrived old))
  unfolding collect
  collect-Cached [] old = inl (refl, refl)
  collect-Cached ((job, result) ∷ arrived) old =
      elim (collect-Cached arrived (insert job result old)) [
        | inr (h, i, r, at, e) ↦ inr (omega arith, suc i, r, at, e)
        | inl (z, same) ↦ elim (Bool-cases (job is name)) [
          | inl e ↦ inr (
            ground (arith, e),
            0,
            result,
            ap (λ (n : String). some (n, result)) (eq_of_is job name e),
            same
                ∙ ap (λ (n : String). lookup name (insert n result old)) (eq_of_is job name e)
                ∙ lookup-insert_self name result old,
          )
          | inr e ↦ inl (
            ground (arith, e, z),
            same ∙ lookup-insert_ne job name result old (ne_of_is job name e),
          )
        ]
      ]

  -- When a `Check` has ended, `LastResult` has for each name with a check the result of such a check that
  -- arrived, and for every other name what it had before. Not more slots are held before than there are.
  pub update_cache-Cached :
      (jobs : List String) (held : ℕ) (h : HealthChecker V) (ops : List (Op V))
      → held ≤ h.slots
      → work (run ops (start jobs held h)) ≡ 0
      → let c = run ops (start jobs held h) in
        Cached name
          (among name jobs)
          c.results
          (lookup name h.last_result)
          (lookup name (update_cache c.results h).last_result)
  unfolding update_cache
  update_cache-Cached jobs held h ops enough over =
      let c = run ops (start jobs held h) in
      subst
        (λ (n : ℕ).
          Cached name n c.results (lookup name h.last_result)
            (lookup name (collect c.results h.last_result)))
        (results_of-run name jobs held h ops enough over) (collect-Cached c.results h.last_result)
