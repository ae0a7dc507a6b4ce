-- ===== src/Tests/Schemes.antt =====
-- grpc/resolver.go: a discovery is registered twice and released, and its closing fails once.
use quickgo.Prelude.{ℕ, ◌+◌, ◌≡◌, inr, refl, true, false, some, List, [], ◌∷◌, String, arith}
use quickgo.Prelude.Int.{pos}
use quickgo.Prelude.Counts.{times}
use quickgo.Prelude.Dict.{lookup}
use quickgo.Grpc.Schemes.{
  Table, uses, close_failed, register_resolver_and_get, release_resolver, Op, registering,
  releasing, run,
}
use quickgo.Grpc.Schemes.References.{acquires, releases, refs_in, Valid}
use quickgo.Grpc.Schemes.Histories.{run-Valid}
use quickgo.Grpc.Schemes.Failing.{release_resolver-register_resolver_and_get}

-- All discoveries have one configuration.
abbrev config_key : ℕ → String
config_key sd = "k"

abbrev ops : List Op
ops =
    registering "etcd" 1
    ∷ registering "etcd" 2
    ∷ releasing false "etcd" 2
    ∷ releasing true "etcd" 1
    ∷ releasing false "etcd" 1
    ∷ []

run-Valid_example :
    Valid config_key (lookup "etcd" (run config_key ops []).0)
    × (refs_in (lookup "etcd" (run config_key ops []).0)
          + times (releases "etcd") (run config_key ops []).1
        ≡ times (acquires "etcd") (run config_key ops []).1)
run-Valid_example = run-Valid config_key ops "etcd" (omega arith)

abbrev table : Table
table = ("etcd", record { key = "k"; sd = some 1; builder = some 1; refs = pos 1 }) ∷ []

table-Valid : Valid config_key (lookup "etcd" table)
unfolding lookup
table-Valid = record { builder = refl; held = inr (omega arith, 1, refl, refl) }

fails_to_close : (release_resolver true config_key "etcd" 1 table).1 ≡ close_failed 1
unfolding release_resolver lookup
fails_to_close = refl

release_resolver-register_resolver_and_get_example :
    ((release_resolver true config_key "etcd" 1 table).0 ≡ table)
    × ((register_resolver_and_get config_key "etcd" 2
          (release_resolver true config_key "etcd" 1 table).0).1
        ≡ uses (some 1))
release_resolver-register_resolver_and_get_example =
    release_resolver-register_resolver_and_get true config_key "etcd" 1 1 2 table table-Valid
      fails_to_close refl
