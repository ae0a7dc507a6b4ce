-- ===== src/Grpc/EtcdRegistry/Leases.antt =====
-- grpc/etcd.go: no lease and no keepalive is lost. Each is given up once, or the registry has it.
use quickgo.Prelude.{
  ℕ, ◌+◌, ◌≡◌, ◌≢◌, refl, not, ◌||◌, ◌==◌, Option, none, some, List, ◌++◌, String, arith, if_both,
}
use quickgo.Prelude.Counts.{one_if, times, times-append}
use quickgo.Grpc.EtcdRegistry.{
  EtcdRegistry, Call, grant, revoke, keep, cancel, Granted, refused, lease, Marshalled, unable,
  text, Answers, Outcome, cancels, replaced, take_lease, after_keep, after_put, after_grant,
  by_grant, establish_lease, lease_value,
}

-- How often lease `i` is granted, given up, kept alive and no more kept alive by a call.
abbrev pub is_grant : ℕ → Call → ℕ
is_grant i (grant id) = one_if (id == i)
is_grant i _ = 0

abbrev pub is_revoke : ℕ → Call → ℕ
is_revoke i (revoke id) = one_if (id == i)
is_revoke i _ = 0

abbrev pub is_keep : ℕ → Call → ℕ
is_keep i (keep id) = one_if (id == i)
is_keep i _ = 0

abbrev pub is_cancel : ℕ → Call → ℕ
is_cancel i (cancel id) = one_if (id == i)
is_cancel i _ = 0

-- What the registry has of lease `i`: the lease, and its keepalive.
abbrev pub held : ℕ → EtcdRegistry → ℕ
held i r = one_if (r.lease_id == i)

abbrev pub kept_by : ℕ → Option ℕ → ℕ
kept_by i none = 0
kept_by i (some id) = one_if (id == i)

-- Calls between two registries: what there was, is granted or is pending is given up or still there.
pub record Balanced (i granted kept : ℕ) (r : EtcdRegistry) (calls : List Call) (r' : EtcdRegistry)
    : Type 0 where
  pub leases : held i r + granted + times (is_grant i) calls ≡ times (is_revoke i) calls + held i r'
  pub keepalives :
      kept_by i r.keep_alive + kept + times (is_keep i) calls
      ≡ times (is_cancel i) calls + kept_by i r'.keep_alive

pub cancels_lem :
    (i : ℕ) (k : Option ℕ)
    → (times (is_cancel i) (cancels k) ≡ kept_by i k)
      × (times (is_revoke i) (cancels k) ≡ 0)
      × (times (is_grant i) (cancels k) ≡ 0)
      × (times (is_keep i) (cancels k) ≡ 0)
unfolding cancels
cancels_lem i none = (refl, refl, refl, refl)
cancels_lem i (some id) = (omega arith, refl, refl, refl)

replaced_lem :
    (i old id : ℕ)
    → i ≢ 0
    → old ≢ id
    → (times (is_revoke i) (replaced old id) ≡ one_if (old == i))
      × (times (is_cancel i) (replaced old id) ≡ 0)
      × (times (is_grant i) (replaced old id) ≡ 0)
      × (times (is_keep i) (replaced old id) ≡ 0)
unfolding replaced
replaced_lem i old id n d = ground arith

-- Etcd gives out leases that are not 0 and that it has not given out before.
abbrev pub FreshLease : {E : Type 0} → Granted E → ℕ → Type 0
FreshLease (refused e) old = Unit {0}
FreshLease (lease id) old = (id ≢ 0) × (old ≢ id)

module _ (E : Type 0) (i : ℕ) (not_zero : i ≢ 0) where
  abbrev pub Balances : ℕ → ℕ → EtcdRegistry → Outcome E → Type 0
  Balances granted kept r o = Balanced i granted kept r o.1 o.0

  take_lease-Balances :
      (id : ℕ) (r : EtcdRegistry)
      → r.lease_id ≢ id
      → Balances (one_if (id == i)) (one_if (id == i)) r (take_lease id r)
  unfolding take_lease
  take_lease-Balances id r fresh =
      if_both (Balances (one_if (id == i)) (one_if (id == i)) r)
        (r.closed || not r.registered || not r.client)
        (λ e. record { leases = omega arith; keepalives = omega arith })
        (λ e. record { leases = taken.0; keepalives = taken.1 })
    where
      taken :
          (held i r
              + one_if (id == i)
              + times (is_grant i) (cancels r.keep_alive ++ replaced r.lease_id id)
            ≡ times (is_revoke i) (cancels r.keep_alive ++ replaced r.lease_id id)
              + one_if (id == i))
          × (kept_by i r.keep_alive
                + one_if (id == i)
                + times (is_keep i) (cancels r.keep_alive ++ replaced r.lease_id id)
              ≡ times (is_cancel i) (cancels r.keep_alive ++ replaced r.lease_id id)
                + one_if (id == i))
      taken =
          let c = cancels_lem i r.keep_alive in
          let d = replaced_lem i r.lease_id id not_zero fresh in
          (
            omega (
              arith,
              c,
              d,
              times-append (is_grant i) (cancels r.keep_alive) (replaced r.lease_id id),
              times-append (is_revoke i) (cancels r.keep_alive) (replaced r.lease_id id),
            ),
            omega (
              arith,
              c,
              d,
              times-append (is_keep i) (cancels r.keep_alive) (replaced r.lease_id id),
              times-append (is_cancel i) (cancels r.keep_alive) (replaced r.lease_id id),
            ),
          )

  after_keep-Balances :
      (id : ℕ) (err : Option E) (r : EtcdRegistry)
      → r.lease_id ≢ id
      → Balances (one_if (id == i)) 0 r (after_keep id err r)
  unfolding after_keep
  after_keep-Balances id (some e) r fresh = record {
    leases = omega arith;
    keepalives = omega arith;
  }
  after_keep-Balances id none r fresh =
      let b = take_lease-Balances id r fresh in
      record { leases = omega (arith, b.leases); keepalives = omega (arith, b.keepalives) }

  after_put-Balances :
      (id : ℕ) (put_err keep_err : Option E) (r : EtcdRegistry)
      → r.lease_id ≢ id
      → Balances (one_if (id == i)) 0 r (after_put id put_err keep_err r)
  unfolding after_put
  after_put-Balances id (some e) keep_err r fresh = record {
    leases = omega arith;
    keepalives = omega arith;
  }
  after_put-Balances id none keep_err r fresh = after_keep-Balances id keep_err r fresh

  module _ (join : String → String → String → String) where
    after_grant-Balances :
        (ans : Answers E) (id : ℕ) (value : Marshalled E) (r : EtcdRegistry)
        → r.lease_id ≢ id
        → Balances (one_if (id == i)) 0 r (after_grant join ans id value r)
    unfolding after_grant
    after_grant-Balances ans id (unable e) r fresh = record {
      leases = omega arith;
      keepalives = omega arith;
    }
    after_grant-Balances ans id (text value) r fresh =
        let b = after_put-Balances id ans.put_err ans.keep_err r fresh in
        record { leases = omega (arith, b.leases); keepalives = omega (arith, b.keepalives) }

    by_grant-Balances :
        (marshal : List (String × String) → Marshalled E) (ans : Answers E) (g : Granted E)
        (r : EtcdRegistry)
        → FreshLease g r.lease_id
        → Balances 0 0 r (by_grant join marshal ans g r)
    unfolding by_grant
    by_grant-Balances marshal ans (refused e) r fresh = record {
      leases = omega arith;
      keepalives = omega arith;
    }
    by_grant-Balances marshal ans (lease id) r fresh =
        let b = after_grant-Balances ans id (lease_value marshal r) r fresh.1 in
        record { leases = omega (arith, b.leases); keepalives = omega (arith, b.keepalives) }

    pub establish_lease-Balances :
        (marshal : List (String × String) → Marshalled E) (ans : Answers E) (r : EtcdRegistry)
        → FreshLease ans.granted r.lease_id
        → Balances 0 0 r (establish_lease join marshal ans r)
    unfolding establish_lease
    establish_lease-Balances marshal ans r fresh =
        if_both (Balances 0 0 r) (r.closed || not r.registered || not r.client)
          (λ e. record { leases = omega arith; keepalives = omega arith })
          (λ e. by_grant-Balances marshal ans ans.granted r fresh)
