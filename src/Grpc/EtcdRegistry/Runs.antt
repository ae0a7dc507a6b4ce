-- ===== src/Grpc/EtcdRegistry/Runs.antt =====
-- grpc/etcd.go: whole runs of a registry.
use quickgo.Prelude.{ℕ, Option, none, some, List, [], ◌∷◌, ◌++◌, String}
use quickgo.Grpc.EtcdRegistry.{EtcdRegistry, Call, Granted, Marshalled, Answers, Outcome}
use quickgo.Grpc.EtcdRegistry.Operations.{register, deregister, close, recover}
use quickgo.Grpc.EtcdRegistry.Leases.{FreshLease}

pub data Op (E : Type 0) : Type 0 where
  registering : Answers E → String → String → Option (List (String × String)) → Op E
  deregistering : Answers E → String → String → Op E
  closing : Answers E → Op E
  -- the keepalive of a lease comes to an end
  ending : Answers E → ℕ → Op E

-- What etcd says to a request for a lease, if the operation makes one.
abbrev pub granted_in : {E : Type 0} → Op E → Option (Granted E)
granted_in (registering ans name address metadata) = some ans.granted
granted_in (deregistering ans name address) = none
granted_in (closing ans) = none
granted_in (ending ans id) = some ans.granted

abbrev pub FreshIn : {E : Type 0} → Option (Granted E) → ℕ → Type 0
FreshIn none old = Unit {0}
FreshIn (some g) old = FreshLease g old

module _ {E : Type 0} (join : String → String → String → String)
    (marshal : List (String × String) → Marshalled E) where
  unfoldable pub step : Op E → EtcdRegistry → Outcome E
  unfolding register deregister close recover
  step (registering ans name address metadata) r = register join marshal ans name address metadata r
  step (deregistering ans name address) r = deregister join ans name address r
  step (closing ans) r = close ans r
  step (ending ans id) r = recover join marshal ans id r

  -- The registry after a run of operations, and the calls that they made.
  unfoldable pub run : List (Op E) → EtcdRegistry → EtcdRegistry × List Call
  unfolding step
  run [] r = (r, [])
  run (op ∷ ops) r =
      let (r₁, calls, err) = step op r in let (r₂, more) = run ops r₁ in (r₂, calls ++ more)

  -- No lease that etcd grants in the run is 0 or the one that the registry has at the time.
  unfoldable pub FreshRun : List (Op E) → EtcdRegistry → Type 0
  unfolding step
  FreshRun [] r = Unit {0}
  FreshRun (op ∷ ops) r = FreshIn (granted_in op) r.lease_id × FreshRun ops (step op r).0
