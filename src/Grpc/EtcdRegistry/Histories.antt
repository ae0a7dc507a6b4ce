-- ===== src/Grpc/EtcdRegistry/Histories.antt =====
-- grpc/etcd.go: what holds after whole runs of a new registry.
use quickgo.Prelude.{
  ℕ, ◌+◌, ◌≡◌, ◌≢◌, inl, inr, refl, ap, Bool, true, false, Option, none, some, List, [], ◌∷◌,
  String, arith, if◌then◌else◌, subst,
}
use quickgo.Prelude.Counts.{times}
use quickgo.Grpc.EtcdRegistry.{EtcdRegistry, Marshalled}
use quickgo.Grpc.EtcdRegistry.Validity.{
  IsValid, register-IsValid, deregister-IsValid, recover-IsValid, close-IsValid,
}
use quickgo.Grpc.EtcdRegistry.Leases.{
  is_grant, is_revoke, is_keep, is_cancel, held, kept_by, Balanced,
}
use quickgo.Grpc.EtcdRegistry.{
  is_empty, EtcdConfig, opened, by_client, new_registry, endpoints_required,
}
use quickgo.Grpc.EtcdRegistry.Runs.{
  Op, registering, deregistering, closing, ending, granted_in, FreshIn, step, run, FreshRun,
}
use quickgo.Grpc.EtcdRegistry.Balance.{chain, Balanced_same, step-Balanced}

-- A constructed registry is the one with nothing in it.
new_registry-eq_inl :
    {E : Type 0} (config : EtcdConfig) (err : Option E) (r : EtcdRegistry)
    → new_registry config err ≡ inl r
    → opened config ≡ r
unfolding new_registry
new_registry-eq_inl config err r = from_if (is_empty config.endpoints) err
  where
    from_if :
        {E : Type 0} (b : Bool) (err : Option E)
        → (if b then inr endpoints_required else by_client config err) ≡ inl r
        → opened config ≡ r
    from_if true err e = cc e
    from_if false none e = cc e
    from_if false (some x) e = cc e

new-IsValid :
    {E : Type 0} (config : EtcdConfig) (err : Option E) (r : EtcdRegistry)
    → new_registry config err ≡ inl r
    → IsValid r × (r.lease_id ≡ 0) × (r.keep_alive ≡ none)
unfolding opened
new-IsValid config err r e =
    subst (λ x. IsValid x × (x.lease_id ≡ 0) × (x.keep_alive ≡ none))
      (new_registry-eq_inl config err r e)
      (record { client = refl; closed = inl refl; kept = refl }, refl, refl)

module _ {E : Type 0} (join : String → String → String → String)
    (marshal : List (String × String) → Marshalled E) where
  step-IsValid :
      (op : Op E) (r : EtcdRegistry)
      → FreshIn (granted_in op) r.lease_id
      → IsValid r
      → IsValid (step join marshal op r).0
  unfolding step
  step-IsValid (registering ans name address metadata) r f v =
      register-IsValid join marshal ans name address metadata r f v
  step-IsValid (deregistering ans name address) r f v =
      deregister-IsValid join marshal ans name address r v
  step-IsValid (closing ans) r f v = close-IsValid ans r v
  step-IsValid (ending ans id) r f v = recover-IsValid join marshal ans id r f v

  run-keeps :
      (ops : List (Op E)) (r : EtcdRegistry)
      → FreshRun join marshal ops r
      → IsValid r
      → IsValid (run join marshal ops r).0
  unfolding run FreshRun
  run-keeps [] r f v = v
  run-keeps (op ∷ ops) r f v = run-keeps ops _ f.1 (step-IsValid op r f.0 v)

  run-Balanced :
      (i : ℕ) (n : i ≢ 0) (ops : List (Op E)) (r : EtcdRegistry)
      → FreshRun join marshal ops r
      → IsValid r
      → Balanced i 0 0 r (run join marshal ops r).1 (run join marshal ops r).0
  unfolding run FreshRun
  run-Balanced i n [] r f v = Balanced_same i r
  run-Balanced i n (op ∷ ops) r f v =
      chain i r _ _ _ _ (step-Balanced join marshal i n op r f.0 v)
        (run-Balanced i n ops _ f.1 (step-IsValid op r f.0 v))

  -- Whatever the operations on a new registry and whatever etcd answers, the registry is afterwards
  -- registered exactly if it keeps a lease alive, and then that is the lease that it has; it has a client
  -- exactly if it is not closed, and closed it is not registered and has no lease. Etcd never grants lease
  -- 0 or the one that the registry has.
  pub new_registry-run-IsValid :
      (config : EtcdConfig) (err : Option E) (r : EtcdRegistry) (ops : List (Op E))
      → new_registry config err ≡ inl r
      → FreshRun join marshal ops r
      → IsValid (run join marshal ops r).0
  new_registry-run-IsValid config err r ops e f = run-keeps ops r f (new-IsValid config err r e).0

  -- Whatever the operations on a new registry and whatever etcd answers, no lease and no keepalive is
  -- lost: each lease has been granted as often as it has been given up, once more if the registry has it,
  -- and each keepalive started as often as cancelled, once more if the registry has it. Etcd never grants
  -- lease 0 or the one that the registry has.
  pub new_registry-run-leases :
      (config : EtcdConfig) (err : Option E) (r : EtcdRegistry) (ops : List (Op E)) (i : ℕ)
      → new_registry config err ≡ inl r
      → FreshRun join marshal ops r
      → i ≢ 0
      → (times (is_grant i) (run join marshal ops r).1
          ≡ times (is_revoke i) (run join marshal ops r).1 + held i (run join marshal ops r).0)
        × (times (is_keep i) (run join marshal ops r).1
            ≡ times (is_cancel i) (run join marshal ops r).1
              + kept_by i (run join marshal ops r).0.keep_alive)
  new_registry-run-leases config err r ops i e f n =
      let (v, z, k) = new-IsValid config err r e in
      let b = run-Balanced i n ops r f v in
      let none_held : held i r ≡ 0 = ground (arith, z) in
      (omega (arith, b.leases, none_held), omega (arith, b.keepalives, ap (kept_by i) k))
