-- ===== src/Grpc/EtcdResolver.antt =====
-- grpc/etcd.go: the addresses that the resolver makes of what etcd has, and its restarts of a watch.
-- `base` is path.Base, `unmarshal` is json.Unmarshal into a map of texts, `atoi` is strconv.Atoi.
pub mod Addresses
pub mod Weights
pub mod Restarts
pub mod Watchers
use quickgo.Prelude.{
  ℕ, zero, suc, Bool, true, false, not, ◌&&◌, ◌||◌, Option, none, some, List, [], ◌∷◌, String,
  length, if◌then◌else◌,
}
use quickgo.Prelude.Int.{ℤ, pos, negsuc, ◌*ℤ◌, ltb_ℤ}
use quickgo.Prelude.Int64.{leb_ℤ, wrap}
use quickgo.Prelude.Dict.{lookup, is_mem}

pub record KeyValue : Type 0 where
  pub key : String
  pub value : String

-- grpcresolver.Address with the weight among its attributes
pub record Address : Type 0 where
  pub addr : String
  pub weight : Option ℤ

module _ (base : String → String) where
  -- The loop of `serviceAddresses`, with the addresses seen
  unfoldable pub addresses_from : List KeyValue → List String → List String
  addresses_from [] seen = []
  addresses_from (kv ∷ kvs) seen =
      let address = base kv.key in
      let known = is_mem address seen in
      let rest = addresses_from kvs (if known then seen else address ∷ seen) in
      if known then rest else address ∷ rest

  unfoldable pub service_addresses : List KeyValue → List String
  unfolding addresses_from
  service_addresses kvs = addresses_from kvs []

-- `weight > 0` of a weight that is a number
unfoldable pub positive : Option ℤ → Option ℤ
positive none = none
positive (some weight) = if ltb_ℤ (pos 0) weight then some weight else none

-- `metadata["weight"]`
unfoldable pub weight_text : Option String → String
weight_text none = ""
weight_text (some text) = text

unfoldable pub weight_of : (String → Option ℤ) → Option (List (String × String)) → Option ℤ
unfolding positive weight_text lookup
weight_of atoi none = none
weight_of atoi (some metadata) = positive (atoi (weight_text (lookup "weight" metadata)))

module _ (base : String → String) (unmarshal : String → Option (List (String × String)))
    (atoi : String → Option ℤ) where
  unfoldable pub resolver_from : List KeyValue → List String → List Address
  unfolding weight_of
  resolver_from [] seen = []
  resolver_from (kv ∷ kvs) seen =
      let address = base kv.key in
      let known = is_mem address seen in
      let rest = resolver_from kvs (if known then seen else address ∷ seen) in
      if known
      then rest
      else record { addr = address; weight = weight_of atoi (unmarshal kv.value) } ∷ rest

  unfoldable pub resolver_addresses : List KeyValue → List Address
  unfolding resolver_from
  resolver_addresses kvs = resolver_from kvs []

-- What etcd answers to a `Get`
pub data Got (E : Type 0) : Type 0 where
  get_failed : E → Got E
  got : List KeyValue → Got E

pub data ResolveError (E : Type 0) : Type 0 where
  resolver_closed no_service_addresses : ResolveError E
  not_got : E → ResolveError E

pub data Resolved (E A : Type 0) : Type 0 where
  failed : ResolveError E → Resolved E A
  resolved : List A → Resolved E A

-- `getServiceInstances`, by whether the resolver is open
unfoldable pub get_service_instances : {E : Type 0} → Bool → Got E → Resolved E KeyValue
get_service_instances is_open (get_failed e) =
    if is_open then failed (not_got e) else failed resolver_closed
get_service_instances is_open (got kvs) = if is_open then resolved kvs else failed resolver_closed

unfoldable pub some_addresses : {E A : Type 0} → List A → Resolved E A
some_addresses [] = failed no_service_addresses
some_addresses (a ∷ rest) = resolved (a ∷ rest)

unfoldable pub resolve_by :
    {E A : Type 0} → (List KeyValue → List A) → Resolved E KeyValue → Resolved E A
unfolding some_addresses
resolve_by make (failed e) = failed e
resolve_by make (resolved kvs) = some_addresses (make kvs)

unfoldable pub resolve : {E : Type 0} → (String → String) → Bool → Got E → Resolved E String
unfolding resolve_by get_service_instances service_addresses
resolve base is_open answer =
    resolve_by (service_addresses base) (get_service_instances is_open answer)

unfoldable pub resolve_resolver_addresses :
    {E : Type 0}
    → (String → String)
    → (String → Option (List (String × String)))
    → (String → Option ℤ)
    → Bool
    → Got E
    → Resolved E Address
unfolding resolve_by get_service_instances resolver_addresses
resolve_resolver_addresses base unmarshal atoi is_open answer =
    resolve_by (resolver_addresses base unmarshal atoi) (get_service_instances is_open answer)

-- A round of `retryEtcdWatch`: is there to go on before the watch and after it, and is its timer awaited?
pub record Round : Type 0 where
  pub before : Bool
  pub after : Bool
  pub fired : Bool

pub data Act : Type 0 where
  ran : Act
  waited : ℤ → Act

-- `min(backoff*2, maxBackoff)`
unfoldable pub next_backoff : ℤ → ℤ → ℤ
unfolding ◌*ℤ◌
next_backoff backoff max_backoff =
    let doubled = wrap (backoff *ℤ pos 2) in
    if leb_ℤ doubled max_backoff then doubled else max_backoff

unfoldable pub retry_etcd_watch : List Round → ℤ → ℤ → List Act
unfolding next_backoff
retry_etcd_watch [] backoff max_backoff = []
retry_etcd_watch (round ∷ rounds) backoff max_backoff =
    let rest = retry_etcd_watch rounds (next_backoff backoff max_backoff) max_backoff in
    if not round.before
    then []
    else if not round.after
    then ran ∷ []
    else if round.fired
    then ran ∷ waited backoff ∷ rest
    else ran ∷ waited backoff ∷ []
