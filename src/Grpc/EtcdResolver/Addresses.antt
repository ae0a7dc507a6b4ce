-- ===== src/Grpc/EtcdResolver/Addresses.antt =====
-- grpc/etcd.go: each instance has its address once.
use quickgo.Prelude.{
  ℕ, ◌≡◌, ap, List, [], ◌∷◌, String, map, arith, if◌then◌else◌, Bool-cases, inl, inr,
}
use quickgo.Prelude.Counts.{one_if, times}
use quickgo.Prelude.Dict.{◌is◌, eq_of_is, is_mem}
use quickgo.Grpc.EtcdResolver.{KeyValue, addresses_from, service_addresses}

-- The instances that etcd has, by the names of their keys
abbrev pub names : (String → String) → List KeyValue → List String
names base = map (λ (kv : KeyValue). base kv.key)

abbrev pub occurrences : String → List String → ℕ
occurrences name = times (λ other. one_if (other is name))

module _ (base : String → String) (name : String) where
  addresses_from-occurrences :
      (kvs : List KeyValue) (seen : List String)
      → occurrences name (addresses_from base kvs seen)
        ≡ (if is_mem name seen then 0 else one_if (is_mem name (names base kvs)))
  unfolding addresses_from
  addresses_from-occurrences [] seen = ground arith
  addresses_from-occurrences (kv ∷ kvs) seen =
      let address = base kv.key in
      let ih = addresses_from-occurrences kvs in
      elim (Bool-cases (address is name)) [
        | inl e ↦
            let same : is_mem address seen ≡ is_mem name seen =
              ap (λ (n : String). is_mem n seen) (eq_of_is address name e) in
            ground (arith, e, same, ih seen, ih (address ∷ seen))
        | inr e ↦ ground (arith, e, ih seen, ih (address ∷ seen))
      ]

  -- Of `serviceAddresses`, an address is there once if an instance has it, and not at all if none has it.
  pub service_addresses-occurrences :
      (kvs : List KeyValue)
      → occurrences name (service_addresses base kvs) ≡ one_if (is_mem name (names base kvs))
  unfolding service_addresses
  service_addresses-occurrences kvs = addresses_from-occurrences kvs []
