-- ===== src/Grpc/Schemes/Others.antt =====
-- grpc/resolver.go: an operation of a scheme leaves the other schemes alone.
use quickgo.Prelude.{ℕ, ◌≡◌, ◌≢◌, refl, Bool, not, ◌&&◌, Option, none, some, String, if_both}
use quickgo.Prelude.Int.{pos, ltb_ℤ}
use quickgo.Prelude.Dict.{lookup, ◌is◌, lookup-insert_ne}
use quickgo.Grpc.Schemes.{
  is_zero, drop_ref, RegisteredResolver, Table, Registered, Released, register_found, is_sd,
  close_unused, release_found,
}

module _ (config_key : ℕ → String) (scheme : String) where
  pub register_found-other :
      (other : String) (sd : ℕ) (found : Option RegisteredResolver) (table : Table)
      → scheme ≢ other
      → lookup other (register_found scheme (config_key sd) sd found table).0 ≡ lookup other table
  unfolding register_found
  register_found-other other sd none table ne = lookup-insert_ne scheme other _ table ne
  register_found-other other sd (some e) table ne =
      let Same = λ (o : Table × Registered). lookup other o.0 ≡ lookup other table in
      if_both Same (ltb_ℤ (pos 0) e.refs && not (e.key is config_key sd)) (λ c. refl)
        (λ c.
          if_both Same (is_zero e.refs) (λ c'. lookup-insert_ne scheme other _ table ne)
            (λ c'. lookup-insert_ne scheme other _ table ne))

  close_unused-other :
      (other : String) (fails : Bool) (sd : Option ℕ) (e : RegisteredResolver) (table : Table)
      → scheme ≢ other
      → lookup other (close_unused fails scheme sd e table).0 ≡ lookup other table
  unfolding close_unused
  close_unused-other other fails none e table ne = lookup-insert_ne scheme other _ table ne
  close_unused-other other fails (some sd) e table ne =
      if_both (λ (o : Table × Released). lookup other o.0 ≡ lookup other table) fails (λ c. refl)
        (λ c. lookup-insert_ne scheme other _ table ne)

  pub release_found-other :
      (other : String) (fails : Bool) (sd : ℕ) (found : Option RegisteredResolver) (table : Table)
      → scheme ≢ other
      → lookup other (release_found fails scheme (config_key sd) sd found table).0
        ≡ lookup other table
  unfolding release_found
  release_found-other other fails sd none table ne = refl
  release_found-other other fails sd (some e) table ne =
      let Same = λ (o : Table × Released). lookup other o.0 ≡ lookup other table in
      if_both Same (not (is_sd sd e.sd) && not (e.key is config_key sd)) (λ c. refl)
        (λ c.
          if_both Same (is_zero (drop_ref e.refs))
            (λ c'. close_unused-other other fails e.sd _ table ne)
            (λ c'. lookup-insert_ne scheme other _ table ne))
