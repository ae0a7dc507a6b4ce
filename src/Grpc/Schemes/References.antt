-- ===== src/Grpc/Schemes/References.antt =====
-- grpc/resolver.go: a scheme has a discovery exactly as long as a registration of it is not released.
use quickgo.Prelude.{
  ℕ, ◌<◌, false, ◌+◌, ◌≤◌, ◌≡◌, ◌⊎◌, inl, inr, refl, ap, sym, subst, Bool, not, ◌&&◌, Option, none,
  some, String, arith, if_both,
}
use quickgo.Prelude.Int.{ℤ, pos, negsuc, pos_part, neg_part, ltb_ℤ}
use quickgo.Prelude.Int64.{max_int, int_dec}
use quickgo.Prelude.Counts.{one_if}
use quickgo.Prelude.Dict.{lookup, insert, ◌is◌, is_refl, lookup-insert_self}
use quickgo.Grpc.Schemes.{
  is_zero, drop_ref, RegisteredResolver, Table, Registered, different_config, uses, Released,
  ignored, still_used, closed, close_failed, register_found, is_sd, close_unused, release_found,
  Result, registered_as, released_as,
}
use quickgo.Grpc.Schemes.Numbers.{
  int_inc-pos_part, drop_ref-pos_part, drop_ref-zero, eq_of_is_zero, refs_of_drop,
}

-- How often a scheme is registered and released, by what the operations returned
abbrev pub acquires : String → Result → ℕ
acquires s (registered_as scheme different_config) = 0
acquires s (registered_as scheme (uses sd)) = one_if (scheme is s)
acquires s (released_as scheme result) = 0

abbrev pub releases : String → Result → ℕ
releases s (registered_as scheme result) = 0
releases s (released_as scheme ignored) = 0
releases s (released_as scheme still_used) = one_if (scheme is s)
releases s (released_as scheme (closed sd)) = one_if (scheme is s)
releases s (released_as scheme (close_failed sd)) = 0

abbrev pub refs_in : Option RegisteredResolver → ℕ
refs_in none = 0
refs_in (some e) = pos_part e.refs

-- An entry without references has no discovery; one with references has one, whose key it has.
abbrev pub IsHeld : (ℕ → String) → RegisteredResolver → Type 0
IsHeld config_key e =
    ((e.refs ≡ pos 0) × (e.sd ≡ none))
    ⊎ ((1 ≤ pos_part e.refs) × (sd : ℕ) × (e.sd ≡ some sd) × (e.key ≡ config_key sd))

pub record IsValid (config_key : ℕ → String) (e : RegisteredResolver) : Type 0 where
  pub builder : e.builder ≡ e.sd
  pub held : IsHeld config_key e

abbrev pub Valid : (ℕ → String) → Option RegisteredResolver → Type 0
Valid config_key none = Unit {0}
Valid config_key (some e) = IsValid config_key e

-- A number of references that is not 0, or of which more than one are left
refs_of_held :
    (config_key : ℕ → String) (e : RegisteredResolver)
    → IsHeld config_key e
    → is_zero e.refs ≡ false
    → 1 ≤ pos_part e.refs
refs_of_held config_key e (inl (zero_refs, no_sd)) c = absurd (cc (ap is_zero zero_refs, c))
refs_of_held config_key e (inr (some_refs, sd, has, key)) c = some_refs

refs_of_used :
    (config_key : ℕ → String) (e : RegisteredResolver)
    → IsHeld config_key e
    → is_zero (drop_ref e.refs) ≡ false
    → 2 ≤ pos_part e.refs
unfolding drop_ref int_dec
refs_of_used config_key e (inl (zero_refs, no_sd)) c =
    absurd (cc (drop_ref-zero e.refs zero_refs, c))
refs_of_used config_key e (inr (some_refs, sd, has, key)) c = refs_of_drop e.refs some_refs c

refs_not_negative :
    (config_key : ℕ → String) (e : RegisteredResolver) → IsHeld config_key e → neg_part e.refs ≡ 0
refs_not_negative config_key e (inl (zero_refs, no_sd)) = ap neg_part zero_refs
refs_not_negative config_key e (inr (some_refs, sd, has, key)) = of_pos e.refs some_refs
  where
    of_pos : (x : ℤ) → 1 ≤ pos_part x → neg_part x ≡ 0
    of_pos (pos n) h = refl
    of_pos (negsuc n) h = absurd (omega arith)

module _ (config_key : ℕ → String) (scheme : String) where
  -- What a step does to the entry of its scheme
  abbrev pub Settled : Option RegisteredResolver → Table → Result → Type 0
  Settled old table result =
      Valid config_key (lookup scheme table)
      × (refs_in (lookup scheme table) + releases scheme result
          ≡ refs_in old + acquires scheme result)

  stored :
      (e : RegisteredResolver) (old : Option RegisteredResolver) (table : Table) (result : Result)
      → IsValid config_key e
      → pos_part e.refs + releases scheme result ≡ refs_in old + acquires scheme result
      → Settled old (insert scheme e table) result
  stored e old table result v sum =
      subst
        (λ (x : Option RegisteredResolver).
          Valid config_key x
          × (refs_in x + releases scheme result ≡ refs_in old + acquires scheme result))
        (sym (lookup-insert_self scheme e table)) (v, sum)

  unchanged :
      (old : Option RegisteredResolver) (table : Table) (result : Result)
      → lookup scheme table ≡ old
      → Valid config_key old
      → releases scheme result ≡ acquires scheme result
      → Settled old table result
  unchanged old table result at v sum =
      subst
        (λ (x : Option RegisteredResolver).
          Valid config_key x
          × (refs_in x + releases scheme result ≡ refs_in old + acquires scheme result))
        (sym at) (v, omega (arith, sum))

  once : one_if (scheme is scheme) ≡ 1
  once = ap one_if (is_refl scheme)

  -- An entry with references has a discovery.
  has_discovery :
      (e : RegisteredResolver)
      → 1 ≤ pos_part e.refs
      → IsHeld config_key e
      → (sd : ℕ) × (e.sd ≡ some sd) × (e.key ≡ config_key sd)
  has_discovery e h (inl (no_refs, no_sd)) = absurd (omega (arith, ap pos_part no_refs))
  has_discovery e h (inr (some_refs, sd, has, key)) = (sd, has, key)

  pub register_found-Settled :
      (sd : ℕ) (found : Option RegisteredResolver) (table : Table)
      → lookup scheme table ≡ found
      → refs_in found < max_int
      → Valid config_key found
      → let o = register_found scheme (config_key sd) sd found table in
        Settled found o.0 (registered_as scheme o.1)
  unfolding register_found
  register_found-Settled sd none table at room v =
      stored _ none table (registered_as scheme (uses (some sd)))
        (record { builder = refl; held = inr (omega arith, sd, refl, refl) }) (omega (arith, once))
  register_found-Settled sd (some e) table at room v =
      let Right = λ (o : Table × Registered). Settled (some e) o.0 (registered_as scheme o.1) in
      let one_more = int_inc-pos_part e.refs (refs_not_negative config_key e v.held) room in
      if_both Right (ltb_ℤ (pos 0) e.refs && not (e.key is config_key sd))
        (λ c. unchanged (some e) table (registered_as scheme different_config) at v refl)
        (λ c.
          if_both Right (is_zero e.refs)
            (λ c'.
              stored _ (some e) table (registered_as scheme (uses (some sd)))
                (record { builder = refl; held = inr (omega (arith, one_more), sd, refl, refl) })
                (omega (arith, once, one_more)))
            (λ c'.
              let (d, has, key) = has_discovery e (refs_of_held config_key e v.held c') v.held in
              stored _ (some e) table (registered_as scheme (uses e.sd))
                (record { builder = v.builder; held = inr (omega (arith, one_more), d, has, key) })
                (omega (arith, once, one_more))))

  close_unused-Settled :
      (fails : Bool) (sd : Option ℕ) (e : RegisteredResolver) (table : Table)
      → e.sd ≡ sd
      → drop_ref e.refs ≡ pos 0
      → lookup scheme table ≡ some e
      → IsValid config_key e
      → let o = close_unused fails scheme sd (record e { refs = drop_ref e.refs }) table in
        Settled (some e) o.0 (released_as scheme o.1)
  unfolding close_unused
  close_unused-Settled fails none e table same last at v =
      stored _ (some e) table (released_as scheme ignored)
        (record { builder = v.builder; held = inl (last, same) })
        (elim v.held [
          | inl h ↦ omega (arith, ap pos_part last, ap pos_part h.0)
          | inr (some_refs, sd, has, key) ↦ absurd (cc (has, same))
        ])
  close_unused-Settled fails (some sd) e table same last at v =
      if_both (λ (o : Table × Released). Settled (some e) o.0 (released_as scheme o.1)) fails
        (λ c. unchanged (some e) table (released_as scheme (close_failed sd)) at v refl)
        (λ c.
          stored _ (some e) table (released_as scheme (closed sd))
            (record { builder = refl; held = inl (last, refl) })
            (elim v.held [
              | inl (zero_refs, no_sd) ↦ absurd (cc (no_sd, same))
              | inr (some_refs, d, has, key) ↦
                  omega (arith, once, ap pos_part last, drop_ref-pos_part e.refs some_refs)
            ]))

  pub release_found-Settled :
      (fails : Bool) (sd : ℕ) (found : Option RegisteredResolver) (table : Table)
      → lookup scheme table ≡ found
      → Valid config_key found
      → let o = release_found fails scheme (config_key sd) sd found table in
        Settled found o.0 (released_as scheme o.1)
  unfolding release_found
  release_found-Settled fails sd none table at v =
      unchanged none table (released_as scheme ignored) at v refl
  release_found-Settled fails sd (some e) table at v =
      let Right = λ (o : Table × Released). Settled (some e) o.0 (released_as scheme o.1) in
      if_both Right (not (is_sd sd e.sd) && not (e.key is config_key sd))
        (λ c. unchanged (some e) table (released_as scheme ignored) at v refl)
        (λ c.
          if_both Right (is_zero (drop_ref e.refs))
            (λ c'. close_unused-Settled fails e.sd e table refl (eq_of_is_zero _ c') at v)
            (λ c'.
              let more = refs_of_used config_key e v.held c' in
              let one_less = drop_ref-pos_part e.refs (omega (arith, more)) in
              let (d, has, key) = has_discovery e (omega (arith, more)) v.held in
              stored _ (some e) table (released_as scheme still_used)
                (record {
                  builder = v.builder;
                  held = inr (omega (arith, more, one_less), d, has, key);
                })
                (omega (arith, once, one_less))))
