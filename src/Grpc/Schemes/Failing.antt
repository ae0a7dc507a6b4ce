-- ===== src/Grpc/Schemes/Failing.antt =====
-- grpc/resolver.go: what a release leaves whose closing fails.
use quickgo.Prelude.{
  ℕ, ◌≡◌, inl, inr, refl, ap, sym, subst, ◌∙◌, Bool, true, not, ◌&&◌, Option, none, some, String,
  arith, if_both,
}
use quickgo.Prelude.Int.{pos, pos_part, ltb_ℤ}
use quickgo.Prelude.Dict.{lookup, ◌is◌, is_refl}
use quickgo.Grpc.Schemes.{
  is_zero, drop_ref, RegisteredResolver, Table, Registered, uses, Released, close_failed,
  register_found, register_resolver_and_get, is_sd, close_unused, release_found, release_resolver,
}
use quickgo.Grpc.Schemes.Numbers.{eq_of_is_zero}
use quickgo.Grpc.Schemes.References.{IsHeld, IsValid, Valid}

-- A release fails to close a discovery: it is that of the entry, and the table is as it was.
abbrev Kept : ℕ → Option RegisteredResolver → Table → Table × Released → Type 0
Kept d found table o =
    o.1 ≡ close_failed d
    → (o.0 ≡ table) × (e : RegisteredResolver) × (found ≡ some e) × (e.sd ≡ some d)

module _ (config_key : ℕ → String) (scheme : String) (d : ℕ) where
  close_unused-Kept :
      (fails : Bool) (sd : Option ℕ) (e copy : RegisteredResolver) (table : Table)
      → e.sd ≡ sd
      → Kept d (some e) table (close_unused fails scheme sd copy table)
  unfolding close_unused
  close_unused-Kept fails none e copy table same = λ h. absurd (cc h)
  close_unused-Kept fails (some sd) e copy table same =
      if_both (Kept d (some e) table) fails
        (λ c h. let which : sd ≡ d = cc h in (refl, e, refl, same ∙ ap some which))
        (λ c h. absurd (cc h))

  release_found-Kept :
      (fails : Bool) (sd : ℕ) (found : Option RegisteredResolver) (table : Table)
      → Kept d found table (release_found fails scheme (config_key sd) sd found table)
  unfolding release_found
  release_found-Kept fails sd none table = λ h. absurd (cc h)
  release_found-Kept fails sd (some e) table =
      if_both (Kept d (some e) table) (not (is_sd sd e.sd) && not (e.key is config_key sd))
        (λ c h. absurd (cc h))
        (λ c.
          if_both (Kept d (some e) table) (is_zero (drop_ref e.refs))
            (λ c'. close_unused-Kept fails e.sd e _ table refl) (λ c' h. absurd (cc h)))

  register_found-uses :
      (sd : ℕ) (e : RegisteredResolver) (table : Table)
      → IsHeld config_key e
      → e.sd ≡ some d
      → config_key sd ≡ config_key d
      → (register_found scheme (config_key sd) sd (some e) table).1 ≡ uses (some d)
  unfolding register_found
  register_found-uses sd e table (inl (no_refs, no_sd)) has same = absurd (cc (no_sd, has))
  register_found-uses sd e table (inr (some_refs, x, held, key)) has same =
      let which : x ≡ d = cc (held, has) in
      let its : e.key ≡ config_key sd = key ∙ ap config_key which ∙ sym same in
      let matches : (e.key is config_key sd) ≡ true =
        ap (λ (k : String). k is config_key sd) its ∙ is_refl (config_key sd) in
      if_both (λ (o : Table × Registered). o.1 ≡ uses (some d))
        (ltb_ℤ (pos 0) e.refs && not (e.key is config_key sd))
        (λ c. absurd (ground (arith, c, matches)))
        (λ c.
          if_both (λ (o : Table × Registered). o.1 ≡ uses (some d)) (is_zero e.refs)
            (λ c'. absurd (omega (arith, some_refs, ap pos_part (eq_of_is_zero e.refs c'))))
            (λ c'. ap uses has))

-- When a release fails to close a discovery, the table is as it was, and the next registration of its
-- configuration gets that discovery. The entry of the scheme is valid before.
pub release_resolver-register_resolver_and_get :
    (fails : Bool) (config_key : ℕ → String) (scheme : String) (sd d other : ℕ) (table : Table)
    → Valid config_key (lookup scheme table)
    → (release_resolver fails config_key scheme sd table).1 ≡ close_failed d
    → config_key other ≡ config_key d
    → ((release_resolver fails config_key scheme sd table).0 ≡ table)
      × ((register_resolver_and_get config_key scheme other
            (release_resolver fails config_key scheme sd table).0).1
          ≡ uses (some d))
unfolding release_resolver register_resolver_and_get
release_resolver-register_resolver_and_get fails config_key scheme sd d other table v h same =
    let (kept, e, found, has) =
      release_found-Kept config_key scheme d fails sd (lookup scheme table) table h in
    let valid : IsValid config_key e = subst (Valid config_key) found v in
    let uses_of = λ (t : Table) (x : Option RegisteredResolver).
      (register_found scheme (config_key other) other x t).1 in
    (
      kept,
      ap (λ (t : Table). (register_found scheme (config_key other) other (lookup scheme t) t).1)
            kept
          ∙ ap (uses_of table) found
          ∙ register_found-uses config_key scheme d other e table valid.held has same,
    )
