-- ===== src/Tests/Etcds.antt =====
-- grpc/etcd.go: a service is registered, its lease is lost and replaced, and the registry is closed.
use quickgo.Prelude.{ℕ, ◌+◌, ◌≡◌, refl, false, none, List, [], ◌∷◌, String, arith}
use quickgo.Prelude.Counts.{times}
use quickgo.Prelude.Int.{pos}
use quickgo.Grpc.EtcdRegistry.{
  EtcdConfig, EtcdRegistry, Answers, Marshalled, text, lease, opened, new_registry,
}
use quickgo.Grpc.EtcdRegistry.Runs.{Op, registering, closing, ending, step, run, FreshRun}
use quickgo.Grpc.EtcdRegistry.Leases.{is_grant, is_revoke, is_keep, is_cancel, held, kept_by}
use quickgo.Grpc.EtcdRegistry.Validity.{IsValid}
use quickgo.Grpc.EtcdRegistry.Operations.{register}
use quickgo.Grpc.EtcdRegistry.Registering.{Registered, unfit, failure, register-Registered}
use quickgo.Grpc.EtcdRegistry.Histories.{new_registry-run-IsValid, new_registry-run-leases}

abbrev config : EtcdConfig
config = record { endpoints = "localhost:2379" ∷ []; prefix = ""; ttl = pos 0 }

abbrev path_join : String → String → String → String
path_join a b c = c

abbrev to_json : List (String × String) → Marshalled String
to_json metadata = text "{}"

abbrev answers : ℕ → Answers String
answers id = record {
  granted = lease id;
  put_err = none;
  keep_err = none;
  delete_err = none;
  close_err = none;
}

abbrev ops : List (Op String)
ops = registering (answers 7) "users" "a:1" none ∷ ending (answers 8) 7 ∷ closing (answers 0) ∷ []

ops_fresh : FreshRun path_join to_json ops (opened config)
unfolding FreshRun step opened
ops_fresh = omega arith

new_registry-run-IsValid_example : IsValid (run path_join to_json ops (opened config)).0
unfolding new_registry
new_registry-run-IsValid_example =
    new_registry-run-IsValid path_join to_json config none (opened config) ops refl ops_fresh

new_registry-run-leases_example :
    (times (is_grant 7) (run path_join to_json ops (opened config)).1
      ≡ times (is_revoke 7) (run path_join to_json ops (opened config)).1
        + held 7 (run path_join to_json ops (opened config)).0)
    × (times (is_keep 7) (run path_join to_json ops (opened config)).1
        ≡ times (is_cancel 7) (run path_join to_json ops (opened config)).1
          + kept_by 7 (run path_join to_json ops (opened config)).0.keep_alive)
unfolding new_registry
new_registry-run-leases_example =
    new_registry-run-leases path_join to_json config none (opened config) ops 7 refl ops_fresh
      (omega arith)

-- The lease 7 is granted once and given up once.
revoked_once : times (is_revoke 7) (run path_join to_json ops (opened config)).1 ≡ 1
unfolding run opened
revoked_once = refl

abbrev stored : EtcdRegistry
stored = record (opened config) {
  registered = false;
  keep_alive = none;
  service_name = "users";
  address = "a:1";
  metadata = none;
}

register-Registered_example :
    Registered {E = String}
      (unfit "users" "a:1" (opened config))
      (failure to_json (answers 7) none)
      (lease 7)
      "a:1"
      (opened config)
      stored
      (register path_join to_json (answers 7) "users" "a:1" none (opened config))
register-Registered_example =
    register-Registered path_join to_json (answers 7) "users" "a:1" none (opened config)

-- Nothing is in the way of it.
is_registered : failure to_json (answers 7) none ≡ none
is_registered = refl
