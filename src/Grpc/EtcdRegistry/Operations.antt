-- ===== src/Grpc/EtcdRegistry/Operations.antt =====
-- grpc/etcd.go: the operations of the registry.
use quickgo.Prelude.{
  ℕ, Bool, true, false, not, ◌||◌, ◌&&◌, ◌==◌, Option, none, some, List, [], ◌∷◌, ◌++◌, String,
  if◌then◌else◌,
}
use quickgo.Prelude.Dict.{◌is◌}
use quickgo.Grpc.EtcdRegistry.{
  EtcdRegistry, Call, revoke, delete, close_client, EtcdError, name_and_address_required,
  registry_closed, not_registered, delete_failed, keep_failed, close_failed, Marshalled, Answers,
  Outcome, as_error, holds, stop_keep_alive_locked, establish_lease,
}

-- The lease that a registry holds is given up, if it has one.
unfoldable pub revokes : Bool → ℕ → List Call
revokes client id = if not (id == 0) && client then revoke id ∷ [] else []

module _ {E : Type 0} where
  -- `Register` after `establishLease`: a failure takes the registration back.
  unfoldable pub settle_register : Outcome E → Outcome E
  settle_register (r, calls, none) = (r, calls, none)
  settle_register (r, calls, some e) = (record r { registered = false }, calls, some e)

  -- `KeepAlive`, which changes nothing
  unfoldable pub keep_alive_once : Option E → EtcdRegistry → Option (EtcdError E)
  unfolding as_error
  keep_alive_once answer r =
      if r.lease_id == 0 then some not_registered else as_error keep_failed answer

  unfoldable pub close : Answers E → EtcdRegistry → Outcome E
  unfolding stop_keep_alive_locked revokes as_error
  close ans r =
      if r.closed
      then (r, [], none)
      else (let (r₁, stops) = stop_keep_alive_locked r in
          let r₂ = record r₁ { closed = true; registered = false; lease_id = 0; client = false } in
          if r.client
          then (
            r₂,
            stops ++ revokes true r.lease_id ++ close_client ∷ [],
            as_error close_failed ans.close_err,
          )
          else (r₂, stops, none))

module _ {E : Type 0} (join : String → String → String → String) where
  unfoldable pub register :
      (List (String × String) → Marshalled E)
      → Answers E
      → String
      → String
      → Option (List (String × String))
      → EtcdRegistry
      → Outcome E
  unfolding settle_register establish_lease stop_keep_alive_locked
  register marshal ans service_name address metadata r =
      if (service_name is "") || (address is "")
      then (r, [], some name_and_address_required)
      else if r.closed || not r.client
      then (r, [], some registry_closed)
      else (let (r₁, stops) = stop_keep_alive_locked r in
          let (r₂, calls, err) = settle_register (
            establish_lease join marshal ans (record r₁ {
              registered = true;
              service_name = service_name;
              address = address;
              metadata = metadata;
            })) in
          (r₂, stops ++ calls, err))

  unfoldable pub deregister : Answers E → String → String → EtcdRegistry → Outcome E
  unfolding stop_keep_alive_locked revokes as_error
  deregister ans service_name address r =
      let (r₁, stops) = stop_keep_alive_locked r in
      let r₂ = record r₁ { registered = false; lease_id = 0 } in
      let calls = stops ++ revokes r.client r.lease_id in
      if r.client
      then (
        r₂,
        calls ++ delete (join r.prefix service_name address) ∷ [],
        as_error delete_failed ans.delete_err,
      )
      else (r₂, calls, some registry_closed)

  -- `keepAliveLoop` of the keepalive of lease `id`, when its channel is at an end: an attempt to register
  -- again, unless the loop returns. Its context is done exactly if it is not the registry's any more.
  unfoldable pub recover :
      (List (String × String) → Marshalled E) → Answers E → ℕ → EtcdRegistry → Outcome E
  unfolding establish_lease
  recover marshal ans id r =
      if r.closed || not r.registered || not (holds id r.keep_alive)
      then (r, [], none)
      else establish_lease join marshal ans r
