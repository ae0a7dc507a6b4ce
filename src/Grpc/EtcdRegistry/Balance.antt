-- ===== src/Grpc/EtcdRegistry/Balance.antt =====
-- grpc/etcd.go: each operation keeps the balance of leases and keepalives.
use quickgo.Prelude.{
  ℕ, ◌≡◌, ◌≢◌, ◌⊎◌, inl, refl, ap, Bool, true, false, not, ◌||◌, ◌==◌, none, some, List, [], ◌∷◌,
  ◌++◌, String, arith, if_both,
}
use quickgo.Prelude.Counts.{one_if, times, times-append}
use quickgo.Prelude.Dict.{◌is◌}
use quickgo.Grpc.EtcdRegistry.{
  EtcdRegistry, Call, Marshalled, Outcome, cancels, stop_keep_alive_locked, holds,
}
use quickgo.Grpc.EtcdRegistry.Operations.{settle_register, revokes}
use quickgo.Grpc.EtcdRegistry.Validity.{IsValid}
use quickgo.Grpc.EtcdRegistry.Leases.{
  is_grant, is_revoke, is_keep, is_cancel, held, kept_by, Balanced, cancels_lem,
  establish_lease-Balances,
}
use quickgo.Grpc.EtcdRegistry.Runs.{
  Op, registering, deregistering, closing, ending, granted_in, FreshIn, step,
}

pub chain :
    (i : ℕ) (r r₁ r₂ : EtcdRegistry) (calls more : List Call)
    → Balanced i 0 0 r calls r₁
    → Balanced i 0 0 r₁ more r₂
    → Balanced i 0 0 r (calls ++ more) r₂
chain i r r₁ r₂ calls more b b' = record {
  leases = omega (
    arith,
    b.leases,
    b'.leases,
    times-append (is_grant i) calls more,
    times-append (is_revoke i) calls more,
  );
  keepalives = omega (
    arith,
    b.keepalives,
    b'.keepalives,
    times-append (is_keep i) calls more,
    times-append (is_cancel i) calls more,
  );
}

pub Balanced_same : (i : ℕ) (r : EtcdRegistry) → Balanced i 0 0 r [] r
Balanced_same i r = record { leases = omega arith; keepalives = omega arith }

revokes_lem :
    (i id : ℕ) (client : Bool)
    → i ≢ 0
    → (client ≡ true) ⊎ (id ≡ 0)
    → (times (is_revoke i) (revokes client id) ≡ one_if (id == i))
      × (times (is_cancel i) (revokes client id) ≡ 0)
      × (times (is_grant i) (revokes client id) ≡ 0)
      × (times (is_keep i) (revokes client id) ≡ 0)
unfolding revokes
revokes_lem i id client n h = ground arith

-- Deregister and Close stop the keepalive and give the lease up,
dropped :
    (i : ℕ) (r r' : EtcdRegistry) (client : Bool)
    → i ≢ 0
    → (client ≡ true) ⊎ (r.lease_id ≡ 0)
    → r'.lease_id ≡ 0
    → r'.keep_alive ≡ none
    → Balanced i 0 0 r (cancels r.keep_alive ++ revokes client r.lease_id) r'
dropped i r r' client n h z k =
    let c = cancels_lem i r.keep_alive in
    let d = revokes_lem i r.lease_id client n h in
    let sum = λ (f : Call → ℕ). times-append f (cancels r.keep_alive) (revokes client r.lease_id) in
    let gone : held i r' ≡ 0 = ground (arith, z) in
    record {
      leases = omega (arith, c, d, gone, sum (is_grant i), sum (is_revoke i));
      keepalives = omega (arith, c, d, ap (kept_by i) k, sum (is_keep i), sum (is_cancel i));
    }

-- and make another call, which is of another kind.
and_call :
    (i : ℕ) (r r' : EtcdRegistry) (calls : List Call) (c : Call)
    → (is_revoke i c ≡ 0) × (is_cancel i c ≡ 0) × (is_grant i c ≡ 0) × (is_keep i c ≡ 0)
    → Balanced i 0 0 r calls r'
    → Balanced i 0 0 r (calls ++ c ∷ []) r'
and_call i r r' calls c z b = record {
  leases = omega (
    arith,
    z,
    b.leases,
    times-append (is_grant i) calls (c ∷ []),
    times-append (is_revoke i) calls (c ∷ []),
  );
  keepalives = omega (
    arith,
    z,
    b.keepalives,
    times-append (is_keep i) calls (c ∷ []),
    times-append (is_cancel i) calls (c ∷ []),
  );
}

stopped_only :
    (i : ℕ) (r r' : EtcdRegistry)
    → i ≢ 0
    → r.lease_id ≡ 0
    → r'.lease_id ≡ 0
    → r'.keep_alive ≡ none
    → Balanced i 0 0 r (cancels r.keep_alive) r'
stopped_only i r r' n y z k =
    let c = cancels_lem i r.keep_alive in
    let before : held i r ≡ 0 = ground (arith, y) in
    let after : held i r' ≡ 0 = ground (arith, z) in
    record {
      leases = omega (arith, c, before, after);
      keepalives = omega (arith, c, ap (kept_by i) k);
    }

-- Register stops the keepalive and has the lease still.
begun :
    (i : ℕ) (r r' : EtcdRegistry)
    → r'.lease_id ≡ r.lease_id
    → r'.keep_alive ≡ none
    → Balanced i 0 0 r (cancels r.keep_alive) r'
begun i r r' same k =
    let c = cancels_lem i r.keep_alive in
    record {
      leases = omega (arith, c, ap (λ x. one_if (x == i)) same);
      keepalives = omega (arith, c, ap (kept_by i) k);
    }

-- Without a client there is no lease.
client-or_no_lease : (r : EtcdRegistry) → IsValid r → (r.client ≡ true) ⊎ (r.lease_id ≡ 0)
client-or_no_lease r v = ground (arith, v.client, v.closed)

no_lease : (r : EtcdRegistry) → IsValid r → r.client ≡ false → r.lease_id ≡ 0
no_lease r v e = ground (arith, v.client, v.closed)

module _ {E : Type 0} (join : String → String → String → String)
    (marshal : List (String × String) → Marshalled E) (i : ℕ) (n : i ≢ 0) where
  settle_register-Balanced :
      (r : EtcdRegistry) (o : Outcome E)
      → Balanced i 0 0 r o.1 o.0
      → Balanced i 0 0 r (settle_register o).1 (settle_register o).0
  unfolding settle_register
  settle_register-Balanced r (r', calls, none) b = b
  settle_register-Balanced r (r', calls, some e) b = record {
    leases = b.leases;
    keepalives = b.keepalives;
  }

  pub step-Balanced :
      (op : Op E) (r : EtcdRegistry)
      → FreshIn (granted_in op) r.lease_id
      → IsValid r
      → Balanced i 0 0 r (step join marshal op r).1 (step join marshal op r).0
  unfolding step stop_keep_alive_locked
  step-Balanced (registering ans name address metadata) r f v =
      if_both (λ (o : Outcome E). Balanced i 0 0 r o.1 o.0) ((name is "") || (address is ""))
        (λ e. Balanced_same i r)
        (λ e.
          if_both (λ (o : Outcome E). Balanced i 0 0 r o.1 o.0) (r.closed || not r.client)
            (λ e'. Balanced_same i r)
            (λ e'. chain i r _ _ (cancels r.keep_alive) _ (begun i r _ refl refl) (
              settle_register-Balanced _ _ (
                establish_lease-Balances E i n join marshal ans
                  (record r {
                    keep_alive = none;
                    registered = true;
                    service_name = name;
                    address = address;
                    metadata = metadata;
                  })
                  f))))
  step-Balanced (deregistering ans name address) r f v =
      if_both (λ (o : Outcome E). Balanced i 0 0 r o.1 o.0) r.client
        (λ e.
          and_call i r _ _ _ (refl, refl, refl, refl) (dropped i r _ r.client n (inl e) refl refl))
        (λ e. dropped i r _ r.client n (client-or_no_lease r v) refl refl)
  step-Balanced (closing ans) r f v =
      if_both (λ (o : Outcome E). Balanced i 0 0 r o.1 o.0) r.closed (λ e. Balanced_same i r)
        (λ e.
          if_both (λ (o : Outcome E). Balanced i 0 0 r o.1 o.0) r.client
            (λ e'.
              and_call i r _ _ _ (refl, refl, refl, refl)
                (dropped i r _ true n (inl refl) refl refl))
            (λ e'. stopped_only i r _ n (no_lease r v e') refl refl))
  step-Balanced (ending ans id) r f v =
      if_both (λ (o : Outcome E). Balanced i 0 0 r o.1 o.0)
        (r.closed || not r.registered || not (holds id r.keep_alive)) (λ e. Balanced_same i r)
        (λ e. establish_lease-Balances E i n join marshal ans r f)
