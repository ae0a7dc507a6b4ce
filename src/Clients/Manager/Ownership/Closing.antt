-- ===== src/Clients/Manager/Ownership/Closing.antt =====
-- grpc_client.go: closing pools keeps count of the clients.
use quickgo.Prelude.{
  ℕ, ◌+◌, ◌≡◌, refl, ap, ◌%◌, Bool, Option, none, some, List, [], ◌∷◌, String, arith, if_both,
}
use quickgo.Prelude.Counts.{copies, times, times-append}
use quickgo.Prelude.Dict.{lookup-insert_self, lookup, insert}
use quickgo.Clients.Pool.{uint64, ClientPool, Call, close_pool}
use quickgo.Clients.Manager.{Manager, close_found, close_client, close_pools, close_all}
use quickgo.Clients.Manager.Ownership.Pools.{
  opens, closes, in_pool, in_pools, in_pools-insert, in_pools-erase, closed_all,
}

-- What the manager has of client `i`, or is pending, or is opened is closed or then there.
abbrev pub Counted : ℕ → ℕ → Manager → Manager → List Call → Type 0
Counted i pending m m' calls =
    in_pools i m.client_pools + pending + times (opens i) calls
    ≡ times (closes i) calls + in_pools i m'.client_pools

module _ (i : ℕ) where
  -- A pool of the map, found under its name
  abbrev pub FoundIn : Option ClientPool → String → Manager → Type 0
  FoundIn found name m = in_pool i found ≡ in_pool i (lookup name m.client_pools)

  close_pool-counted :
      (fails : ℕ → Bool) (p : ClientPool)
      → (times (closes i) (close_pool fails p).1 ≡ copies i p.clients)
        × (times (opens i) (close_pool fails p).1 ≡ 0)
  unfolding close_pool
  close_pool-counted fails p = closed_all i p.clients

  -- A pool that is closed and stays in the map
  pub emptied :
      (fails : ℕ → Bool) (name : String) (p : ClientPool) (m : Manager)
      → FoundIn (some p) name m
      → let m' : Manager = record m {
        client_pools = insert name (close_pool fails p).0 m.client_pools;
      } in
        Counted i 0 m m' (close_pool fails p).1 × (in_pool i (lookup name m'.client_pools) ≡ 0)
  unfolding close_pool
  emptied fails name p m e = (
    omega (
      arith,
      e,
      closed_all i p.clients,
      in_pools-insert i name (record p { clients = [] }) m.client_pools,
    ),
    ap (in_pool i) (lookup-insert_self name (record p { clients = [] }) m.client_pools),
  )

  close_found-Counted :
      (fails : ℕ → Bool) (name : String) (found : Option ClientPool) (m : Manager)
      → FoundIn found name m
      → Counted i 0 m (close_found fails name found m).0 (close_found fails name found m).1
  unfolding close_found
  close_found-Counted fails name none m e = omega arith
  close_found-Counted fails name (some p) m e =
      if_both (λ (o : Manager × List Call × Bool). Counted i 0 m o.0 o.1) (close_pool fails p).2
        (λ e'. (emptied fails name p m e).0)
        (λ e'. omega (arith, e, close_pool-counted fails p, in_pools-erase i name m.client_pools))

  pub close_client-Counted :
      (fails : ℕ → Bool) (name : String) (m : Manager)
      → Counted i 0 m (close_client fails name m).0 (close_client fails name m).1
  unfolding close_client
  close_client-Counted fails name m =
      close_found-Counted fails name (lookup name m.client_pools)
        (record m { generation = (m.generation + 1) % uint64 }) refl

  close_pools-counted :
      (fails : ℕ → Bool) (pools : List (String × ClientPool))
      → (times (closes i) (close_pools fails pools).0 ≡ in_pools i pools)
        × (times (opens i) (close_pools fails pools).0 ≡ 0)
  unfolding close_pools
  close_pools-counted fails [] = (refl, refl)
  close_pools-counted fails ((name, p) ∷ pools) =
      let c = (close_pool fails p).1 in
      let o = (close_pools fails pools).0 in
      let ih = close_pools-counted fails pools in
      let closing = close_pool-counted fails p in
      (
        omega (arith, ih, closing, times-append (closes i) c o),
        omega (arith, ih, closing, times-append (opens i) c o),
      )

  pub close_all-Counted :
      (fails : ℕ → Bool) (m : Manager) → Counted i 0 m (close_all fails m).0 (close_all fails m).1
  unfolding close_all
  close_all-Counted fails m = omega (arith, close_pools-counted fails m.client_pools)
