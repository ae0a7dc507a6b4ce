-- ===== src/Grpc/EtcdRegistry/Registering.antt =====
-- grpc/etcd.go: how `Register` ends, by what etcd answers.
use quickgo.Prelude.{
  ℕ, ◌≡◌, refl, ap, subst, arith, inl, inr, true, false, not, ◌||◌, Bool-cases, Option, none, some,
  List, [], ◌∷◌, ◌++◌, String, if◌then◌else◌,
}
use quickgo.Prelude.Dict.{◌is◌}
use quickgo.Grpc.EtcdRegistry.{
  EtcdRegistry, EtcdError, name_and_address_required, registry_closed, grant_failed, marshal_failed,
  put_failed, keep_failed, Call, grant, put, keep, Granted, refused, lease, Marshalled, unable,
  text, Answers, Outcome, cancels, replaced, stop_keep_alive_locked, take_lease, after_keep,
  after_put, lease_value, after_grant, by_grant, establish_lease,
}
use quickgo.Grpc.EtcdRegistry.Operations.{register, settle_register}

-- The calls of a registration that succeeds: the old keepalive is stopped, a lease is granted, the address
-- or the metadata put under it, and it is kept; then the old lease is given up.
abbrev pub HasCalled : String → EtcdRegistry → ℕ → List Call → Type 0
HasCalled key r id calls =
    (value : String) × (calls
      ≡ cancels r.keep_alive ++ grant id ∷ put key value id ∷ keep id ∷ replaced r.lease_id id)

-- A registry that is at work, as it is in the midst of `Register`
abbrev AtWork : EtcdRegistry → Type 0
AtWork r = (r.closed || not r.registered || not r.client) ≡ false

module _ {E : Type 0} where
  -- Why nothing is tried, and why it fails: the first of these that applies
  abbrev pub unfit : String → String → EtcdRegistry → Option (EtcdError E)
  unfit name address r =
      if (name is "") || (address is "")
      then some name_and_address_required
      else if r.closed || not r.client
      then some registry_closed
      else none

  abbrev pub or_error : (E → EtcdError E) → Option E → Option (EtcdError E) → Option (EtcdError E)
  or_error f (some e) later = some (f e)
  or_error f none later = later

  abbrev pub grant_error : Granted E → Option E
  grant_error (refused e) = some e
  grant_error (lease id) = none

  abbrev pub text_error : Marshalled E → Option E
  text_error (unable e) = some e
  text_error (text value) = none

  -- Metadata are marshalled if there are any.
  abbrev pub value_error :
      (List (String × String) → Marshalled E) → Option (List (String × String)) → Option E
  value_error marshal none = none
  value_error marshal (some []) = none
  value_error marshal (some (m ∷ ms)) = text_error (marshal (m ∷ ms))

  abbrev pub failure :
      (List (String × String) → Marshalled E)
      → Answers E
      → Option (List (String × String))
      → Option (EtcdError E)
  failure marshal ans metadata = or_error grant_failed (grant_error ans.granted) (
      or_error marshal_failed (value_error marshal metadata)
        (or_error put_failed ans.put_err (or_error keep_failed ans.keep_err none)))

  -- The ends of `Register`, by why it is not tried and why it fails
  abbrev pub Registered :
      Option (EtcdError E)
      → Option (EtcdError E)
      → Granted E
      → String
      → EtcdRegistry
      → EtcdRegistry
      → Outcome E
      → Type 0
  Registered (some e) failed granted key r r' o = (o.2 ≡ some e) × (o.0 ≡ r) × (o.1 ≡ [])
  Registered none (some e) granted key r r' o = (o.2 ≡ some e) × (o.0 ≡ r')
  Registered none none granted key r r' o =
      (id : ℕ) × (granted ≡ lease id)
      × (o.2 ≡ none)
      × (o.0 ≡ record r' { registered = true; lease_id = id; keep_alive = some id })
      × HasCalled key r id o.1

  -- The ends of `establishLease`, without the calls of its caller
  abbrev Ended : Option (EtcdError E) → Granted E → String → EtcdRegistry → Outcome E → Type 0
  Ended (some e) granted key r o = (o.2 ≡ some e) × (o.0 ≡ r)
  Ended none granted key r o =
      (id : ℕ) × (granted ≡ lease id)
      × (o.2 ≡ none)
      × (o.0 ≡ record r { lease_id = id; keep_alive = some id })
      × (value : String) × (o.1
          ≡ grant id
            ∷ put key value id
            ∷ keep id
            ∷ (cancels r.keep_alive ++ replaced r.lease_id id))

module _ {E : Type 0} (join : String → String → String → String)
    (marshal : List (String × String) → Marshalled E) (ans : Answers E) where
  abbrev key_of : EtcdRegistry → String
  key_of r = join r.prefix r.service_name r.address

  after_grant-Ended :
      (id : ℕ) (value : Marshalled E) (put_err keep_err : Option E) (r : EtcdRegistry)
      → ans.put_err ≡ put_err
      → ans.keep_err ≡ keep_err
      → AtWork r
      → let o = after_grant join ans id value r in
        Ended
          (or_error marshal_failed
            (text_error value)
            (or_error put_failed put_err (or_error keep_failed keep_err none)))
          (lease id)
          (key_of r)
          r
          (o.0, grant id ∷ o.1, o.2)
  unfolding after_grant after_put after_keep take_lease
  after_grant-Ended id (unable e) p k r ep ek w = (refl, refl)
  after_grant-Ended id (text value) (some e) k r ep ek w = rw ep (refl, refl)
  after_grant-Ended id (text value) none (some e) r ep ek w = rw (ep, ek) (refl, refl)
  after_grant-Ended id (text value) none none r ep ek w =
      rw (ep, ek, w) (id, refl, refl, refl, value, refl)

  by_grant-Ended :
      (granted : Granted E) (r : EtcdRegistry)
      → AtWork r
      → Ended
          (or_error grant_failed (grant_error granted) (
            or_error marshal_failed
              (text_error (lease_value marshal r))
              (or_error put_failed ans.put_err (or_error keep_failed ans.keep_err none))))
          granted
          (key_of r)
          r
          (by_grant join marshal ans granted r)
  unfolding by_grant
  by_grant-Ended (refused e) r w = (refl, refl)
  by_grant-Ended (lease id) r w =
      after_grant-Ended id (lease_value marshal r) ans.put_err ans.keep_err r refl refl w

  text_error-lease_value :
      (metadata : Option (List (String × String))) (r : EtcdRegistry)
      → r.metadata ≡ metadata
      → text_error (lease_value marshal r) ≡ value_error marshal metadata
  unfolding lease_value
  text_error-lease_value none r e = rw e refl
  text_error-lease_value (some []) r e = rw e refl
  text_error-lease_value (some (m ∷ ms)) r e = rw e refl

  establish_lease-Ended :
      (r : EtcdRegistry)
      → AtWork r
      → Ended
          (failure marshal ans r.metadata)
          ans.granted
          (key_of r)
          r
          (establish_lease join marshal ans r)
  unfolding establish_lease
  establish_lease-Ended r w = rw w (
      subst
        (λ e.
          Ended
            (or_error grant_failed (grant_error ans.granted) (
              or_error marshal_failed e
                (or_error put_failed ans.put_err (or_error keep_failed ans.keep_err none))))
            ans.granted (key_of r) r (by_grant join marshal ans ans.granted r))
        (text_error-lease_value r.metadata r refl) (by_grant-Ended ans.granted r w))

  -- The registry of `Register` after the old keepalive is stopped
  abbrev begun : String → String → Option (List (String × String)) → EtcdRegistry → EtcdRegistry
  begun name address metadata r = record r {
    keep_alive = none;
    registered = true;
    service_name = name;
    address = address;
    metadata = metadata;
  }

  settled :
      (name address : String) (metadata : Option (List (String × String))) (r : EtcdRegistry)
      (why : Option (EtcdError E)) (o : Outcome E)
      → Ended why ans.granted (join r.prefix name address) (begun name address metadata r) o
      → Registered none why ans.granted
          (join r.prefix name address)
          r
          (record (begun name address metadata r) { registered = false })
          (
            (settle_register o).0,
            cancels r.keep_alive ++ (settle_register o).1,
            (settle_register o).2,
          )
  unfolding settle_register cancels
  settled name address metadata r (some e) (r', calls, none) (err, same) = absurd (cc err)
  settled name address metadata r (some e) (r', calls, some e') (err, same) =
      (err, ap (λ (x : EtcdRegistry). record x { registered = false }) same)
  settled name address metadata r none (r', calls, some e) (id, granted, err, same, value, made) =
      absurd (cc err)
  settled name address metadata r none (r', calls, none) (id, granted, err, same, value, made) =
      (id, granted, refl, same, (value, ap (λ cs. cancels r.keep_alive ++ cs) made))

  -- `Register` does nothing and says why if the name or the address is empty, or the registry is closed or
  -- has no client. Otherwise it fails exactly if the grant of a lease, the marshalling of metadata, the put or
  -- the start of the keepalive fails, with the first of these errors; the registry is then not registered,
  -- keeps nothing alive, has the lease that it had, and the service's name, address and metadata. If none
  -- fails, it succeeds: the registry is registered, and has and keeps alive the lease that was granted. It has
  -- stopped the old keepalive, been granted the lease, put the service's key under it, started to keep it and
  -- given up the old lease, in this order.
  pub register-Registered :
      (name address : String) (metadata : Option (List (String × String))) (r : EtcdRegistry)
      → Registered
          (unfit name address r)
          (failure marshal ans metadata)
          ans.granted
          (join r.prefix name address)
          r
          (record (begun name address metadata r) { registered = false })
          (register join marshal ans name address metadata r)
  unfolding register stop_keep_alive_locked
  register-Registered name address metadata r =
      elim (Bool-cases ((name is "") || (address is ""))) [
        | inl e ↦ rw e (refl, refl, refl)
        | inr e ↦ elim (Bool-cases (r.closed || not r.client)) [
          | inl e' ↦ rw (e, e') (refl, refl, refl)
          | inr e' ↦
              rw (e, e')
                (settled name address metadata r (failure marshal ans metadata) _
                  (establish_lease-Ended (begun name address metadata r) (ground (arith, e'))))
        ]
      ]
