-- ===== src/Grpc/Schemes/Histories.antt =====
-- grpc/resolver.go: whole histories of the table.
use quickgo.Prelude.{
  ℕ, ◌≤◌, ◌<◌, length, ℕ, ◌+◌, ◌≡◌, ◌≢◌, inl, inr, refl, ap, sym, subst, false, List, [], ◌∷◌,
  String, arith, Bool-cases,
}
use quickgo.Prelude.Int64.{max_int}
use quickgo.Prelude.Counts.{one_if, times}
use quickgo.Prelude.Dict.{lookup, ◌is◌, eq_of_is, ne_of_is}
use quickgo.Grpc.Schemes.{
  Table, Registered, different_config, uses, Released, ignored, still_used, closed, close_failed,
  register_resolver_and_get, release_resolver, Op, registering, releasing, Result, registered_as,
  released_as, step, run,
}
use quickgo.Grpc.Schemes.References.{
  acquires, releases, refs_in, Valid, register_found-Settled, release_found-Settled,
}
use quickgo.Grpc.Schemes.Others.{register_found-other, release_found-other}

abbrev scheme_of : Op → String
scheme_of (registering scheme sd) = scheme
scheme_of (releasing fails scheme sd) = scheme

module _ (config_key : ℕ → String) where
  -- A step of some scheme, for a scheme
  abbrev Accounted : String → Table → Table × Result → Type 0
  Accounted s table o =
      Valid config_key (lookup s o.0)
      × (refs_in (lookup s o.0) + releases s o.1 ≡ refs_in (lookup s table) + acquires s o.1)

  step-own :
      (op : Op) (table : Table)
      → refs_in (lookup (scheme_of op) table) < max_int
      → Valid config_key (lookup (scheme_of op) table)
      → Accounted (scheme_of op) table (step config_key op table)
  unfolding step register_resolver_and_get release_resolver
  step-own (registering scheme sd) table room v =
      register_found-Settled config_key scheme sd (lookup scheme table) table refl room v
  step-own (releasing fails scheme sd) table room v =
      release_found-Settled config_key scheme fails sd (lookup scheme table) table refl v

  step-other :
      (op : Op) (table : Table) (s : String)
      → scheme_of op ≢ s
      → lookup s (step config_key op table).0 ≡ lookup s table
  unfolding step register_resolver_and_get release_resolver
  step-other (registering scheme sd) table s ne =
      register_found-other config_key scheme s sd (lookup scheme table) table ne
  step-other (releasing fails scheme sd) table s ne =
      release_found-other config_key scheme s fails sd (lookup scheme table) table ne

  registered-other :
      (scheme s : String) (result : Registered)
      → (scheme is s) ≡ false
      → acquires s (registered_as scheme result) ≡ 0
  registered-other scheme s different_config e = refl
  registered-other scheme s (uses sd) e = ap one_if e

  released-other :
      (scheme s : String) (result : Released)
      → (scheme is s) ≡ false
      → releases s (released_as scheme result) ≡ 0
  released-other scheme s ignored e = refl
  released-other scheme s still_used e = ap one_if e
  released-other scheme s (closed sd) e = ap one_if e
  released-other scheme s (close_failed sd) e = refl

  step-uncounted :
      (op : Op) (table : Table) (s : String)
      → (scheme_of op is s) ≡ false
      → (acquires s (step config_key op table).1 ≡ 0)
        × (releases s (step config_key op table).1 ≡ 0)
  unfolding step
  step-uncounted (registering scheme sd) table s e = (registered-other scheme s _ e, refl)
  step-uncounted (releasing fails scheme sd) table s e = (refl, released-other scheme s _ e)

  step-Accounted :
      (op : Op) (table : Table) (s : String)
      → refs_in (lookup s table) < max_int
      → Valid config_key (lookup s table)
      → Accounted s table (step config_key op table)
  step-Accounted op table s room v = elim (Bool-cases (scheme_of op is s)) [
    | inl e ↦ own (eq_of_is (scheme_of op) s e)
    | inr e ↦ other e
  ]
    where
      own : scheme_of op ≡ s → Accounted s table (step config_key op table)
      own e =
          subst (λ (t : String). Accounted t table (step config_key op table)) e
            (step-own op table
              (subst (λ (t : String). refs_in (lookup t table) < max_int) (sym e) room)
              (subst (λ (t : String). Valid config_key (lookup t table)) (sym e) v))

      other : (scheme_of op is s) ≡ false → Accounted s table (step config_key op table)
      other e =
          let same = step-other op table s (ne_of_is (scheme_of op) s e) in
          (
            subst (Valid config_key) (sym same) v,
            omega (arith, ap refs_in same, step-uncounted op table s e),
          )

  acquires-le : (op : Op) (table : Table) (s : String) → acquires s (step config_key op table).1 ≤ 1
  unfolding step
  acquires-le (registering scheme sd) table s = of_result _
    where
      of_result : (result : Registered) → acquires s (registered_as scheme result) ≤ 1
      of_result different_config = omega arith
      of_result (uses sd) = ground arith
  acquires-le (releasing fails scheme sd) table s = omega arith

  run-Accounted :
      (ops : List Op) (table : Table) (s : String)
      → refs_in (lookup s table) + length ops ≤ max_int
      → Valid config_key (lookup s table)
      → Valid config_key (lookup s (run config_key ops table).0)
        × (refs_in (lookup s (run config_key ops table).0)
              + times (releases s) (run config_key ops table).1
            ≡ refs_in (lookup s table) + times (acquires s) (run config_key ops table).1)
  unfolding run
  run-Accounted [] table s room v = (v, omega arith)
  run-Accounted (op ∷ ops) table s room v =
      let one = step-Accounted op table s (omega arith) v in
      let few = acquires-le op table s in
      let rest =
        run-Accounted ops (step config_key op table).0 s (omega (arith, one.1, few)) one.0 in
      (rest.0, omega (arith, one.1, rest.1))

  -- From the empty table on, whatever is registered and released under whatever schemes: the references of a
  -- scheme are its successful registrations that have not been released. Without one the scheme has no
  -- discovery, and otherwise it has one, with the key of its configuration, and so has its builder. There are
  -- at most 2 ^ 63 - 1 operations.
  pub run-Valid :
      (ops : List Op) (s : String)
      → length ops ≤ max_int
      → Valid config_key (lookup s (run config_key ops []).0)
        × (refs_in (lookup s (run config_key ops []).0)
              + times (releases s) (run config_key ops []).1
            ≡ times (acquires s) (run config_key ops []).1)
  unfolding lookup
  run-Valid ops s few =
      let all = run-Accounted ops [] s (omega arith) tt in (all.0, omega (arith, all.1))
