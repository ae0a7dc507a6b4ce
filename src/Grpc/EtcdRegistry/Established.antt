-- ===== src/Grpc/EtcdRegistry/Established.antt =====
-- grpc/etcd.go: how `establishLease` ends.
use quickgo.Prelude.{
  ℕ, ◌≡◌, refl, ◌⊎◌, inl, inr, true, false, not, ◌||◌, Option, none, some, List, String, arith,
  if_both,
}
use quickgo.Grpc.EtcdRegistry.{
  EtcdRegistry, EtcdError, Granted, refused, lease, Marshalled, unable, text, Answers, Outcome,
  take_lease, after_keep, after_put, after_grant, by_grant, lease_value, establish_lease,
}

module _ {E : Type 0} where
  -- How `establishLease` ends: with a new lease, or with an error and nothing changed.
  abbrev pub Established : Granted E → EtcdRegistry → Outcome E → Type 0
  Established g r o =
      ((id : ℕ) × (g ≡ lease id)
        × (o.2 ≡ none)
        × (o.0 ≡ record r { lease_id = id; keep_alive = some id })
        × (r.closed ≡ false)
        × (r.registered ≡ true)
        × (r.client ≡ true))
      ⊎ ((e : EtcdError E) × (o.2 ≡ some e) × (o.0 ≡ r))

  take_lease-Established : (id : ℕ) (r : EtcdRegistry) → Established (lease id) r (take_lease id r)
  unfolding take_lease
  take_lease-Established id r =
      if_both (Established (lease id) r) (r.closed || not r.registered || not r.client)
        (λ e. inr (_, refl, refl))
        (λ e. inl (id, refl, refl, refl, ground arith, ground arith, ground arith))

  after_keep-Established :
      (id : ℕ) (err : Option E) (r : EtcdRegistry) → Established (lease id) r (after_keep id err r)
  unfolding after_keep
  after_keep-Established id (some e) r = inr (_, refl, refl)
  after_keep-Established id none r = take_lease-Established id r

  after_put-Established :
      (id : ℕ) (put_err keep_err : Option E) (r : EtcdRegistry)
      → Established (lease id) r (after_put id put_err keep_err r)
  unfolding after_put
  after_put-Established id (some e) keep_err r = inr (_, refl, refl)
  after_put-Established id none keep_err r = after_keep-Established id keep_err r

  module _ (join : String → String → String → String)
      (marshal : List (String × String) → Marshalled E) (ans : Answers E) where
    after_grant-Established :
        (id : ℕ) (value : Marshalled E) (r : EtcdRegistry)
        → Established (lease id) r (after_grant join ans id value r)
    unfolding after_grant
    after_grant-Established id (unable e) r = inr (_, refl, refl)
    after_grant-Established id (text value) r = after_put-Established id ans.put_err ans.keep_err r

    by_grant-Established :
        (g : Granted E) (r : EtcdRegistry) → Established g r (by_grant join marshal ans g r)
    unfolding by_grant
    by_grant-Established (refused e) r = inr (_, refl, refl)
    by_grant-Established (lease id) r = after_grant-Established id (lease_value marshal r) r

    pub establish_lease-Established :
        (r : EtcdRegistry) → Established ans.granted r (establish_lease join marshal ans r)
    unfolding establish_lease
    establish_lease-Established r =
        if_both (Established ans.granted r) (r.closed || not r.registered || not r.client)
          (λ e. inr (_, refl, refl)) (λ e. by_grant-Established ans.granted r)
