-- ===== src/Grpc/Registry/Instances.antt =====
-- grpc/registry.go: the static registry as a bag of instances for each service.
use quickgo.Prelude.{
  ℕ, ◌+◌, ◌-◌, ◌≡◌, refl, ap, ◌∙◌, Bool, true, false, ◌&&◌, Bool-cases, inl, inr, Option, none,
  some, List, [], ◌∷◌, ◌++◌, String, arith, if◌then◌else◌,
}
use quickgo.Prelude.Int.{ℤ}
use quickgo.Prelude.Dict.{lookup, insert, ◌is◌, lookup-insert, eq_of_is}
use quickgo.Grpc.Registry.Counts.{at_address, at_address-append, kept, remove_counts}
use quickgo.Grpc.Registry.{
  metadata_weight, ServiceInfo, StaticRegistry, new_static_registry, list_of, register, deregister,
  deregister_from, remove_first, store, get_services,
}

-- How many instances a registry gives out of a service at an address.
unfoldable pub instances : String → String → StaticRegistry → ℕ
unfolding list_of at_address
instances name address r = at_address address (list_of (get_services name r))

pub data Op : Type 0 where
  reg : String → String → Option (List (String × String)) → Op
  dereg : String → String → Op

-- The bag: registering adds one to the count of its service and address, deregistering takes one away.
unfoldable pub counted : String → String → List Op → ℕ → ℕ
counted name address [] n = n
counted name address (reg s a metadata ∷ ops) n =
    counted name address ops (if (s is name) && (a is address) then n + 1 else n)
counted name address (dereg s a ∷ ops) n =
    counted name address ops (if (s is name) && (a is address) then n - 1 else n)

unfoldable pub run : (String → Option ℤ) → List Op → StaticRegistry → StaticRegistry
run parse_int [] r = r
run parse_int (reg s a metadata ∷ ops) r = run parse_int ops (register parse_int s a metadata r)
run parse_int (dereg s a ∷ ops) r = run parse_int ops (deregister s a r)

instances-insert :
    (s name address : String) (services : List ServiceInfo) (r : StaticRegistry)
    → instances name address (insert s services r)
      ≡ (if s is name then at_address address services else instances name address r)
unfolding instances get_services list_of
instances-insert s name address services r = elim (Bool-cases (s is name)) [
  | inl e ↦ ground (arith, e, lookup-insert s name services r)
  | inr e ↦ ground (arith, e, lookup-insert s name services r)
]

-- The instances under the name of a list that is found.
instances_found :
    (s address : String) (r : StaticRegistry) (services : List ServiceInfo)
    → lookup s r ≡ some services
    → instances s address r ≡ at_address address services
unfolding instances get_services list_of
instances_found s address r services e = ap (λ o. at_address address (list_of o)) e

instances_missing :
    (s address : String) (r : StaticRegistry) → lookup s r ≡ none → instances s address r ≡ 0
unfolding instances get_services list_of at_address
instances_missing s address r e = ap (λ o. at_address address (list_of o)) e

register_lem :
    (parse_int : String → Option ℤ) (s a name address : String)
    (metadata : Option (List (String × String))) (r : StaticRegistry)
    → instances name address (register parse_int s a metadata r) ≡ (
        if (s is name) && (a is address)
        then instances name address r + 1
        else instances name address r)
unfolding instances register get_services
register_lem parse_int s a name address metadata r =
    let services = list_of (lookup s r) in
    let info : ServiceInfo = record {
      name = s;
      address = a;
      metadata = metadata;
      weight = metadata_weight parse_int metadata;
    } in
    instances-insert s name address (services ++ info ∷ []) r ∙ counts (s is name) refl
  where
    counts :
        (b : Bool)
        → (s is name) ≡ b
        → (if b
            then at_address address (
                list_of (lookup s r)
                ++ record {
                  name = s;
                  address = a;
                  metadata = metadata;
                  weight = metadata_weight parse_int metadata;
                }
                  ∷ [])
            else instances name address r)
          ≡ (if b && (a is address) then instances name address r + 1 else instances name address r)
    counts true e =
        let same : instances s address r ≡ instances name address r =
          ap (λ x. instances x address r) (eq_of_is s name e) in
        ground (
          arith,
          same,
          at_address-append address
              (record {
                name = s;
                address = a;
                metadata = metadata;
                weight = metadata_weight parse_int metadata;
              })
              (list_of (lookup s r)),
        )
    counts false e = refl

instances-store :
    (s name address : String) (r : StaticRegistry) (services : List ServiceInfo)
    (o : Option (List ServiceInfo))
    → lookup s r ≡ some services
    → instances name address (store s o r)
      ≡ (if s is name then at_address address (kept services o) else instances name address r)
unfolding store kept
instances-store s name address r services (some x) found = instances-insert s name address x r
instances-store s name address r services none found = elim (Bool-cases (s is name)) [
  | inl e ↦ ground (
    arith,
    e,
    instances_found s address r services found,
    ap (λ x. instances x address r) (eq_of_is s name e),
  )
  | inr e ↦ ground (arith, e)
]

deregister_from_lem :
    (s a name address : String) (r : StaticRegistry) (o : Option (List ServiceInfo))
    → lookup s r ≡ o
    → instances name address (deregister_from o s a r) ≡ (
        if (s is name) && (a is address)
        then instances name address r - 1
        else instances name address r)
unfolding deregister_from
deregister_from_lem s a name address r (some services) found = elim (Bool-cases (s is name)) [
  | inl e ↦ ground (
    arith,
    e,
    instances-store s name address r services (remove_first a services) found,
    remove_counts a address services,
    instances_found s address r services found,
    ap (λ x. instances x address r) (eq_of_is s name e),
  )
  | inr e ↦
      ground (arith, e, instances-store s name address r services (remove_first a services) found)
]
deregister_from_lem s a name address r none found = elim (Bool-cases (s is name)) [
  | inl e ↦ ground (
    arith,
    e,
    instances_missing s address r found,
    ap (λ x. instances x address r) (eq_of_is s name e),
  )
  | inr e ↦ ground (arith, e)
]

run-counted :
    (parse_int : String → Option ℤ) (name address : String) (ops : List Op) (r : StaticRegistry)
    → instances name address (run parse_int ops r)
      ≡ counted name address ops (instances name address r)
unfolding run counted deregister
run-counted parse_int name address [] r = refl
run-counted parse_int name address (reg s a metadata ∷ ops) r =
    run-counted parse_int name address ops (register parse_int s a metadata r)
    ∙ ap (counted name address ops) (register_lem parse_int s a name address metadata r)
run-counted parse_int name address (dereg s a ∷ ops) r =
    run-counted parse_int name address ops (deregister s a r)
    ∙ ap (counted name address ops) (deregister_from_lem s a name address r (lookup s r) refl)

-- After any registrations and deregistrations on a new registry, it gives out as many instances of each
-- service at each address as the bag counts: each registration adds one, and each deregistration takes one
-- away if there is one.
pub instances-run :
    (parse_int : String → Option ℤ) (name address : String) (ops : List Op)
    → instances name address (run parse_int ops new_static_registry) ≡ counted name address ops 0
unfolding instances list_of at_address get_services lookup
instances-run parse_int name address ops =
    run-counted parse_int name address ops new_static_registry
