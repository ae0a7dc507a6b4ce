-- ===== src/Grpc/EtcdRegistry/Validity.antt =====
-- grpc/etcd.go: what holds of a registry between its operations.
use quickgo.Prelude.{
  ℕ, ◌≡◌, ◌≢◌, refl, sym, subst, ◌⊎◌, inl, inr, Bool, true, false, not, ◌||◌, Option, none, some,
  List, String, arith, if◌then◌else◌, if_both,
}
use quickgo.Prelude.Dict.{◌is◌}
use quickgo.Grpc.EtcdRegistry.{
  EtcdRegistry, Granted, lease, Marshalled, Answers, Outcome, establish_lease,
  stop_keep_alive_locked, holds,
}
use quickgo.Grpc.EtcdRegistry.Operations.{register, settle_register, deregister, close, recover}
use quickgo.Grpc.EtcdRegistry.Leases.{FreshLease}
use quickgo.Grpc.EtcdRegistry.Established.{Established, establish_lease-Established}

abbrev pub IsKept : Option ℕ → EtcdRegistry → Type 0
IsKept none r = r.registered ≡ false
IsKept (some id) r = (r.registered ≡ true) × (r.lease_id ≡ id) × (id ≢ 0)

-- A registry is registered exactly if it keeps a lease alive, which is the one that it has; closed, it has
-- no client, no registration and no lease.
pub record IsValid (r : EtcdRegistry) : Type 0 where
  pub client : r.client ≡ not r.closed
  pub closed : (r.closed ≡ false) ⊎ ((r.registered ≡ false) × (r.lease_id ≡ 0))
  pub kept : IsKept r.keep_alive r

abbrev shut : EtcdRegistry → EtcdRegistry
shut r = record r {
  keep_alive = none;
  closed = true;
  registered = false;
  lease_id = 0;
  client = false;
}

Granted-ne :
    {E : Type 0} {g : Granted E} {id : ℕ} (old : ℕ) → g ≡ lease id → FreshLease g old → id ≢ 0
Granted-ne old e f = (subst (λ x. FreshLease x old) e f).0

module _ {E : Type 0} where
  Established-IsValid :
      (g : Granted E) (r : EtcdRegistry) (o : Outcome E)
      → FreshLease g r.lease_id
      → Established g r o
      → IsValid r
      → IsValid o.0
  Established-IsValid g r o f (inl (id, granted, none_err, e, open_r, reg, has)) v =
      subst IsValid (sym e) (record {
        client = v.client;
        closed = inl open_r;
        kept = (reg, refl, Granted-ne r.lease_id granted f);
      })
  Established-IsValid g r o f (inr (err, some_err, e)) v = subst IsValid (sym e) v

  -- In the middle of Register the registry is registered and keeps nothing alive.
  settle_register-IsValid :
      (g : Granted E) (r : EtcdRegistry) (o : Outcome E)
      → FreshLease g r.lease_id
      → Established g r o
      → r.client ≡ not r.closed
      → r.closed ≡ false
      → r.keep_alive ≡ none
      → IsValid (settle_register o).0
  unfolding settle_register
  settle_register-IsValid g r (r', calls, none) f (inl (id, granted, none_err, e, open_r, reg, has))
        c op k =
      subst IsValid (sym e) (record {
        client = c;
        closed = inl open_r;
        kept = (reg, refl, Granted-ne r.lease_id granted f);
      })
  settle_register-IsValid g r (r', calls, some err) f (inr (err', some_err, e)) c op k =
      subst (λ x. IsValid (record x { registered = false })) (sym e)
        (record {
          client = c;
          closed = inl op;
          kept = subst (λ x. IsKept x (record r { registered = false })) (sym k) refl;
        })
  settle_register-IsValid g r (r', calls, some err) f
        (inl (id, granted, none_err, e, more, m', m'')) c op k =
      absurd (cc none_err)
  settle_register-IsValid g r (r', calls, none) f (inr (err', some_err, e)) c op k =
      absurd (cc some_err)

  module _ (join : String → String → String → String)
      (marshal : List (String × String) → Marshalled E) (ans : Answers E) where
    pub register-IsValid :
        (name address : String) (metadata : Option (List (String × String))) (r : EtcdRegistry)
        → FreshLease ans.granted r.lease_id
        → IsValid r
        → IsValid (register join marshal ans name address metadata r).0
    unfolding register stop_keep_alive_locked
    register-IsValid name address metadata r f v =
        if_both (λ (o : Outcome E). IsValid o.0) ((name is "") || (address is "")) (λ e. v)
          (λ e.
            if_both (λ (o : Outcome E). IsValid o.0) (r.closed || not r.client) (λ e'. v)
              (λ e'.
                settle_register-IsValid ans.granted _ _ f
                  (establish_lease-Established join marshal ans (record r {
                    keep_alive = none;
                    registered = true;
                    service_name = name;
                    address = address;
                    metadata = metadata;
                  }))
                  v.client (ground arith) refl))

    pub deregister-IsValid :
        (name address : String) (r : EtcdRegistry)
        → IsValid r
        → IsValid (deregister join ans name address r).0
    unfolding deregister stop_keep_alive_locked
    deregister-IsValid name address r v =
        if_both (λ (o : Outcome E). IsValid o.0) r.client
          (λ e. record { client = v.client; closed = inr (refl, refl); kept = refl })
          (λ e. record { client = v.client; closed = inr (refl, refl); kept = refl })

    pub recover-IsValid :
        (id : ℕ) (r : EtcdRegistry)
        → FreshLease ans.granted r.lease_id
        → IsValid r
        → IsValid (recover join marshal ans id r).0
    unfolding recover
    recover-IsValid id r f v =
        if_both (λ (o : Outcome E). IsValid o.0)
          (r.closed || not r.registered || not (holds id r.keep_alive)) (λ e. v)
          (λ e.
            Established-IsValid ans.granted r (establish_lease join marshal ans r) f
              (establish_lease-Established join marshal ans r) v)

  shut-IsValid :
      (r : EtcdRegistry) (b : Bool) (o o' : Outcome E)
      → o.0 ≡ shut r
      → o'.0 ≡ shut r
      → IsValid (if◌then◌else◌ {A = Outcome E} b o o').0
  shut-IsValid r true o o' e e' =
      subst IsValid (sym e) (record { client = refl; closed = inr (refl, refl); kept = refl })
  shut-IsValid r false o o' e e' =
      subst IsValid (sym e') (record { client = refl; closed = inr (refl, refl); kept = refl })

  pub close-IsValid : (ans : Answers E) (r : EtcdRegistry) → IsValid r → IsValid (close ans r).0
  unfolding close stop_keep_alive_locked
  close-IsValid ans r v =
      if_both (λ (o : Outcome E). IsValid o.0) r.closed (λ e. v)
        (λ e. shut-IsValid r r.client _ _ refl refl)
