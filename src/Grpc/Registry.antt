-- ===== src/Grpc/Registry.antt =====
-- grpc/registry.go: the static registry. `parse_int` is `parseInt` of a text, which is fmt.Sscanf; the
-- copies of metadata that the code makes are equal to what they copy.
pub mod Counts
pub mod Instances
use quickgo.Prelude.{Option, none, some, List, [], ◌∷◌, ◌++◌, String, if◌then◌else◌, Bool}
use quickgo.Prelude.Int.{ℤ, pos}
use quickgo.Prelude.Dict.{lookup, insert, ◌is◌}

pub record ServiceInfo : Type 0 where
  pub name : String
  pub address : String
  pub metadata : Option (List (String × String))
  pub weight : ℤ

abbrev pub StaticRegistry : Type 0
StaticRegistry = List (String × List ServiceInfo)

abbrev pub new_static_registry : StaticRegistry
new_static_registry = []

-- The list under a name, nil if there is none.
unfoldable pub list_of : Option (List ServiceInfo) → List ServiceInfo
list_of none = []
list_of (some services) = services

-- The weight that the metadata give, if they give one.
unfoldable pub parsed_weight : (String → Option ℤ) → Option String → ℤ
parsed_weight parse_int none = pos 1
parsed_weight parse_int (some weight) = elim (parse_int weight) [ none ↦ pos 1 | some w ↦ w ]

unfoldable pub metadata_weight : (String → Option ℤ) → Option (List (String × String)) → ℤ
unfolding parsed_weight lookup
metadata_weight parse_int none = pos 1
metadata_weight parse_int (some metadata) = parsed_weight parse_int (lookup "weight" metadata)

unfoldable pub register :
    (String → Option ℤ)
    → String
    → String
    → Option (List (String × String))
    → StaticRegistry
    → StaticRegistry
unfolding metadata_weight list_of
register parse_int service_name address metadata r =
    let info : ServiceInfo = record {
      name = service_name;
      address = address;
      metadata = metadata;
      weight = metadata_weight parse_int metadata;
    } in
    insert service_name (list_of (lookup service_name r) ++ info ∷ []) r

unfoldable pub cons_kept : ServiceInfo → Option (List ServiceInfo) → Option (List ServiceInfo)
cons_kept s none = none
cons_kept s (some services) = some (s ∷ services)

-- The loop of `Deregister`: the list without the first instance at the address, if there is one.
unfoldable pub remove_first : String → List ServiceInfo → Option (List ServiceInfo)
unfolding cons_kept
remove_first address [] = none
remove_first address (s ∷ services) =
    let rest = remove_first address services in
    if s.address is address then some services else cons_kept s rest

unfoldable pub store : String → Option (List ServiceInfo) → StaticRegistry → StaticRegistry
store service_name none r = r
store service_name (some services) r = insert service_name services r

unfoldable pub deregister_from :
    Option (List ServiceInfo) → String → String → StaticRegistry → StaticRegistry
unfolding remove_first store
deregister_from none service_name address r = r
deregister_from (some services) service_name address r =
    store service_name (remove_first address services) r

unfoldable pub deregister : String → String → StaticRegistry → StaticRegistry
unfolding deregister_from
deregister service_name address r = deregister_from (lookup service_name r) service_name address r

unfoldable pub get_services : String → StaticRegistry → Option (List ServiceInfo)
get_services service_name r = lookup service_name r
