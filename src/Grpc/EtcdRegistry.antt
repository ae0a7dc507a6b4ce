-- ===== src/Grpc/EtcdRegistry.antt =====
-- grpc/etcd.go: the registry. `operationMu` makes Register, Deregister, Close and the recovery of the
-- keepalive loop one step each. The etcd client is not under src/: what it answers in a step comes from
-- `Answers`, and a step returns the calls that it makes. `join` is path.Join of three parts, `marshal` is
-- json.Marshal of the metadata.
pub mod Operations
pub mod Leases
pub mod Established
pub mod Registering
pub mod Runs
pub mod Balance
pub mod Histories
pub mod Validity
use quickgo.Prelude.{
  ℕ, ◌⊎◌, inl, inr, Bool, true, false, not, ◌||◌, ◌&&◌, ◌==◌, Option, none, some, List, [], ◌∷◌,
  ◌++◌, String, if◌then◌else◌,
}
use quickgo.Prelude.Int.{ℤ, pos, negsuc}
use quickgo.Prelude.Dict.{◌is◌}

pub record EtcdConfig : Type 0 where
  pub endpoints : List String
  pub prefix : String
  pub ttl : ℤ

-- `client` says whether it is not nil. A lease is a number, 0 for none. The context and the channel of
-- the keepalive stand and fall together; they are named by the lease that they keep.
pub record EtcdRegistry : Type 0 where
  pub client : Bool
  pub prefix : String
  pub ttl : ℤ
  pub lease_id : ℕ
  pub keep_alive : Option ℕ
  pub registered : Bool
  pub service_name : String
  pub address : String
  pub metadata : Option (List (String × String))
  pub closed : Bool

-- The calls of the client, and `cancel` for that of a keepalive's context.
pub data Call : Type 0 where
  grant revoke keep cancel : ℕ → Call
  put : String → String → ℕ → Call
  delete : String → Call
  close_client : Call

pub data EtcdError (E : Type 0) : Type 0 where
  endpoints_required name_and_address_required registry_closed not_active stopped not_registered :
      EtcdError E
  client_failed grant_failed marshal_failed put_failed keep_failed delete_failed close_failed :
      E → EtcdError E

pub data Granted (E : Type 0) : Type 0 where
  refused : E → Granted E
  lease : ℕ → Granted E

pub data Marshalled (E : Type 0) : Type 0 where
  unable : E → Marshalled E
  text : String → Marshalled E

pub record Answers (E : Type 0) : Type 0 where
  pub granted : Granted E
  pub put_err : Option E
  pub keep_err : Option E
  pub delete_err : Option E
  pub close_err : Option E

-- The registry after a step, its calls in order, and the error returned.
abbrev pub Outcome : Type 0 → Type 0
Outcome E = EtcdRegistry × List Call × Option (EtcdError E)

unfoldable pub as_error : {E : Type 0} → (E → EtcdError E) → Option E → Option (EtcdError E)
as_error f none = none
as_error f (some e) = some (f e)

abbrev pub is_empty : {A : Type 0} → List A → Bool
is_empty [] = true
is_empty (x ∷ xs) = false

abbrev pub holds : ℕ → Option ℕ → Bool
holds id none = false
holds id (some k) = k == id

-- `if config.TTL == 0 { config.TTL = DefaultEtcdTTL }`
unfoldable pub default_ttl : ℤ → ℤ
default_ttl (pos n) = if n == 0 then pos 30 else pos n
default_ttl (negsuc n) = negsuc n

unfoldable pub opened : EtcdConfig → EtcdRegistry
unfolding default_ttl
opened config = record {
  client = true;
  prefix = if config.prefix is "" then "/grpc/services" else config.prefix;
  ttl = default_ttl config.ttl;
  lease_id = 0;
  keep_alive = none;
  registered = false;
  service_name = "";
  address = "";
  metadata = none;
  closed = false;
}

-- `NewEtcdRegistry`, by the error that clientv3.New returns
unfoldable pub by_client : {E : Type 0} → EtcdConfig → Option E → EtcdRegistry ⊎ EtcdError E
unfolding opened
by_client config none = inl (opened config)
by_client config (some e) = inr (client_failed e)

unfoldable pub new_registry : {E : Type 0} → EtcdConfig → Option E → EtcdRegistry ⊎ EtcdError E
unfolding by_client
new_registry config client_err =
    if is_empty config.endpoints then inr endpoints_required else by_client config client_err

unfoldable pub cancels : Option ℕ → List Call
cancels none = []
cancels (some id) = cancel id ∷ []

-- `stopKeepAliveLocked`
unfoldable pub stop_keep_alive_locked : EtcdRegistry → EtcdRegistry × List Call
unfolding cancels
stop_keep_alive_locked r = (record r { keep_alive = none }, cancels r.keep_alive)

-- The lease given up at the end of `establishLease`.
unfoldable pub replaced : ℕ → ℕ → List Call
replaced old id = if not (old == 0) && not (old == id) then revoke old ∷ [] else []

module _ {E : Type 0} where
  -- `establishLease` from its second lock on: the lease is kept, and taken into the registry.
  unfoldable pub take_lease : ℕ → EtcdRegistry → Outcome E
  unfolding cancels replaced
  take_lease id r =
      if r.closed || not r.registered || not r.client
      then (r, cancel id ∷ revoke id ∷ [], some stopped)
      else (
        record r { lease_id = id; keep_alive = some id },
        cancels r.keep_alive ++ replaced r.lease_id id,
        none,
      )

  unfoldable pub after_keep : ℕ → Option E → EtcdRegistry → Outcome E
  unfolding take_lease
  after_keep id (some e) r = (r, keep id ∷ cancel id ∷ revoke id ∷ [], some (keep_failed e))
  after_keep id none r = let (r', calls, err) = take_lease id r in (r', keep id ∷ calls, err)

  unfoldable pub after_put : ℕ → Option E → Option E → EtcdRegistry → Outcome E
  unfolding after_keep
  after_put id (some e) keep_err r = (r, revoke id ∷ [], some (put_failed e))
  after_put id none keep_err r = after_keep id keep_err r

  -- The value put: the address, or the metadata if there are any.
  unfoldable pub lease_value : (List (String × String) → Marshalled E) → EtcdRegistry → Marshalled E
  lease_value marshal r = elim r.metadata [
    | none ↦ text r.address
    | some metadata ↦ if is_empty metadata then text r.address else marshal metadata
  ]

module _ {E : Type 0} (join : String → String → String → String) where
  unfoldable pub after_grant : Answers E → ℕ → Marshalled E → EtcdRegistry → Outcome E
  unfolding after_put
  after_grant ans id (unable e) r = (r, revoke id ∷ [], some (marshal_failed e))
  after_grant ans id (text value) r =
      let (r', calls, err) = after_put id ans.put_err ans.keep_err r in
      (r', put (join r.prefix r.service_name r.address) value id ∷ calls, err)

  unfoldable pub by_grant :
      (List (String × String) → Marshalled E) → Answers E → Granted E → EtcdRegistry → Outcome E
  unfolding after_grant lease_value
  by_grant marshal ans (refused e) r = (r, [], some (grant_failed e))
  by_grant marshal ans (lease id) r =
      let (r', calls, err) = after_grant ans id (lease_value marshal r) r in
      (r', grant id ∷ calls, err)

  unfoldable pub establish_lease :
      (List (String × String) → Marshalled E) → Answers E → EtcdRegistry → Outcome E
  unfolding by_grant
  establish_lease marshal ans r =
      if r.closed || not r.registered || not r.client
      then (r, [], some not_active)
      else by_grant marshal ans ans.granted r
