-- ===== src/Clients/Manager/Status.antt =====
-- grpc_client.go: `GetPoolStatus`, by which clients are connected.
use quickgo.Prelude.{
  ℕ, ◌+◌, ◌≡◌, refl, Bool, true, false, Option, none, some, List, [], ◌∷◌, String, arith, length,
  ltb, if◌then◌else◌,
}
use quickgo.Prelude.Dict.{lookup, ◌is◌}
use quickgo.Clients.Pool.{ClientPool}
use quickgo.Clients.Manager.{Manager, any_connected, pool_connected, is_connected}

pub record PoolStatus : Type 0 where
  pub service_name : String
  pub total : ℕ
  pub healthy : ℕ
  pub unhealthy : ℕ

-- The loop over the clients of a pool, with the numbers of those connected so far and of the others.
unfoldable pub count_from : (ℕ → Bool) → List ℕ → ℕ → ℕ → ℕ × ℕ
count_from connected [] healthy unhealthy = (healthy, unhealthy)
count_from connected (c ∷ cs) healthy unhealthy =
    if connected c
    then count_from connected cs (healthy + 1) unhealthy
    else count_from connected cs healthy (unhealthy + 1)

unfoldable pub pool_status : (ℕ → Bool) → String → ClientPool → PoolStatus
unfolding count_from
pool_status connected name pool =
    let (healthy, unhealthy) = count_from connected pool.clients 0 0 in
    record {
      service_name = name;
      total = length pool.clients;
      healthy = healthy;
      unhealthy = unhealthy;
    }

unfoldable pub status_from : (ℕ → Bool) → List (String × ClientPool) → List (String × PoolStatus)
unfolding pool_status
status_from connected [] = []
status_from connected ((name, pool) ∷ pools) =
    (name, pool_status connected name pool) ∷ status_from connected pools

unfoldable pub get_pool_status : (ℕ → Bool) → Manager → List (String × PoolStatus)
unfolding status_from
get_pool_status connected m = status_from connected m.client_pools

-- What a status says of whether the service is connected, with its numbers in order
abbrev pub Says : Option PoolStatus → Bool → Type 0
Says none connected = connected ≡ false
Says (some status) connected =
    (connected ≡ ltb 0 status.healthy) × (status.healthy + status.unhealthy ≡ status.total)

module _ (connected : ℕ → Bool) where
  count_from-sum :
      (cs : List ℕ) (healthy unhealthy : ℕ)
      → (count_from connected cs healthy unhealthy).0
          + (count_from connected cs healthy unhealthy).1
        ≡ healthy + unhealthy + length cs
  unfolding count_from
  count_from-sum [] h u = omega arith
  count_from-sum (c ∷ cs) h u =
      ground (arith, count_from-sum cs (h + 1) u, count_from-sum cs h (u + 1))

  count_from-ltb :
      (cs : List ℕ) (healthy unhealthy : ℕ)
      → ltb 0 (count_from connected cs healthy unhealthy).0
        ≡ (if any_connected connected cs then true else ltb 0 healthy)
  unfolding count_from any_connected
  count_from-ltb [] h u = refl
  count_from-ltb (c ∷ cs) h u =
      ground (arith, count_from-ltb cs (h + 1) u, count_from-ltb cs h (u + 1))

  pool_status-Says :
      (name : String) (pool : ClientPool)
      → Says (some (pool_status connected name pool)) (any_connected connected pool.clients)
  unfolding pool_status
  pool_status-Says name pool = (
    ground (arith, count_from-ltb pool.clients 0 0),
    omega (arith, count_from-sum pool.clients 0 0),
  )

  if-Says :
      (b : Bool) (name : String) (pool : ClientPool) (status : Option PoolStatus)
      (found : Option ClientPool)
      → Says status (pool_connected connected found)
      → Says
          (if b then some (pool_status connected name pool) else status)
          (pool_connected connected (if b then some pool else found))
  unfolding pool_connected
  if-Says true name pool status found h = pool_status-Says name pool
  if-Says false name pool status found h = h

  status_from-Says :
      (name : String) (pools : List (String × ClientPool))
      → Says
          (lookup name (status_from connected pools))
          (pool_connected connected (lookup name pools))
  unfolding status_from lookup pool_connected
  status_from-Says name [] = refl
  status_from-Says name ((key, pool) ∷ pools) =
      if-Says (key is name) key pool _ _ (status_from-Says name pools)

  -- `IsConnected` agrees with `GetPoolStatus`: a service is connected exactly if it has a pool whose status
  -- counts a healthy client, and in a status healthy and unhealthy clients are together all of the pool.
  pub get_pool_status-is_connected :
      (name : String) (m : Manager)
      → Says (lookup name (get_pool_status connected m)) (is_connected connected name m)
  unfolding get_pool_status is_connected
  get_pool_status-is_connected name m = status_from-Says name m.client_pools
