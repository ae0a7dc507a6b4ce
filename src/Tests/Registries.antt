-- ===== src/Tests/Registries.antt =====
-- grpc/registry.go: one service at two addresses.
use quickgo.Prelude.{◌≡◌, Option, none, List, [], ◌∷◌, String}
use quickgo.Prelude.Int.{ℤ}
use quickgo.Grpc.Registry.{new_static_registry}
use quickgo.Grpc.Registry.Instances.{Op, reg, dereg, run, instances, counted, instances-run}

abbrev no_number : String → Option ℤ
no_number text = none

abbrev ops : List Op
ops =
    reg "users" "a:1" none
    ∷ reg "users" "b:1" none
    ∷ reg "users" "a:1" none
    ∷ dereg "users" "a:1"
    ∷ dereg "orders" "a:1"
    ∷ []

instances-run_example : instances "users" "a:1" (run no_number ops new_static_registry) ≡ 1
unfolding counted
instances-run_example = instances-run no_number "users" "a:1" ops
