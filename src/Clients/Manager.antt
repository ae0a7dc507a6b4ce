-- ===== src/Clients/Manager.antt =====
-- grpc_client.go: `GrpcClientManager`. A step is what runs under one lock of the manager, with the call of
-- `getClient` that follows it, or the creation of a pool, which runs under no lock. Which clients are usable
-- and which closings fail comes with a step.
pub mod Steps
pub mod Status
pub mod Ownership
use quickgo.Prelude.{
  ℕ, ◌+◌, ◌%◌, ◌==◌, Bool, true, false, not, ◌||◌, Option, none, some, List, [], ◌∷◌, ◌++◌, String,
  map, if◌then◌else◌,
}
use quickgo.Prelude.Dict.{lookup, insert, erase, ◌is◌, is_mem}
use quickgo.Clients.Pool.{uint64, ClientPool, get_client, Call, closed, close_pool}

-- The pools and the services registered; `generation` is `poolGeneration`.
pub record Manager : Type 0 where
  pub client_pools : List (String × ClientPool)
  pub services : List String
  pub generation : ℕ

abbrev pub new_manager : Manager
new_manager = record { client_pools = []; services = []; generation = 0 }

-- How a look for a client ends: with one, with the need for a pool, or with an error.
pub data Found : Type 0 where
  found : ℕ → Found
  create_pool : ℕ → Found
  not_registered was_reset no_usable : Found

unfoldable pub register_service : String → Manager → Manager × Bool
register_service service_name m = if service_name is "" then (m, false) else (
  record m {
    services =
        if is_mem service_name m.services then m.services else m.services ++ service_name ∷ [];
  },
  true,
)

-- `pool.getClient()` of the pool of a service, whose index it moves on
unfoldable pub look : (ℕ → Bool) → String → Option ClientPool → Manager → Manager × Option ℕ
unfolding get_client
look usable service_name none m = (m, none)
look usable service_name (some pool) m =
    let (pool', client) = get_client usable pool in
    (record m { client_pools = insert service_name pool' m.client_pools }, client)

unfoldable pub or_otherwise : Option ℕ → Manager → Found → Manager × Found
or_otherwise none m otherwise = (m, otherwise)
or_otherwise (some client) m otherwise = (m, found client)

-- `GetClient` up to the call of the single flight
unfoldable pub get_client_start : (ℕ → Bool) → String → Manager → Manager × Found
unfolding look or_otherwise
get_client_start usable service_name m =
    let (m', client) = look usable service_name (lookup service_name m.client_pools) m in
    or_otherwise client m'
      (if is_mem service_name m.services then create_pool m.generation else not_registered)

-- the same looks in the flight of a generation, before it creates a pool
unfoldable pub get_client_check : (ℕ → Bool) → String → ℕ → Manager → Manager × Found
unfolding look or_otherwise
get_client_check usable service_name generation m =
    let (m', client) = look usable service_name (lookup service_name m.client_pools) m in
    or_otherwise client m' (
      if not (is_mem service_name m.services)
      then not_registered
      else if m.generation == generation
      then create_pool generation
      else was_reset)

unfoldable pub found_or : Option ℕ → Found
found_or none = no_usable
found_or (some client) = found client

-- the new pool is taken into the map, if the service is still registered and nothing was closed
unfoldable pub store_pool : (ℕ → Bool) → String → ℕ → List ℕ → Manager → Manager × List Call × Found
unfolding get_client found_or
store_pool usable service_name generation clients m =
    if not (is_mem service_name m.services)
    then (m, map closed clients, not_registered)
    else if m.generation == generation
    then (let (pool, client) = get_client usable (record { clients = clients; index = 0 }) in
        (record m { client_pools = insert service_name pool m.client_pools }, [], found_or client))
    else (m, map closed clients, was_reset)

-- what is done if the pool of the service gives no client: it is closed, and stays in the map so far
unfoldable pub replace_pool :
    (ℕ → Bool)
    → (ℕ → Bool)
    → String
    → ℕ
    → List ℕ
    → Option ClientPool
    → Manager
    → Manager × List Call × Found
unfolding store_pool close_pool
replace_pool usable fails service_name generation clients none m =
    store_pool usable service_name generation clients m
replace_pool usable fails service_name generation clients (some pool) m =
    let (pool', calls, failed) = close_pool fails pool in
    let (m', more, result) =
      store_pool usable service_name generation clients
        (record m { client_pools = insert service_name pool' m.client_pools }) in
    (m', calls ++ more, result)

unfoldable pub install_by :
    (ℕ → Bool) → (ℕ → Bool) → String → ℕ → List ℕ → Option ℕ → Manager → Manager × List Call × Found
unfolding replace_pool
install_by usable fails service_name generation clients (some client) m =
    (m, map closed clients, found client)
install_by usable fails service_name generation clients none m =
    replace_pool usable fails service_name generation clients (lookup service_name m.client_pools) m

-- the end of the flight, under the lock, with the clients of the new pool
unfoldable pub get_client_install :
    (ℕ → Bool) → (ℕ → Bool) → String → ℕ → List ℕ → Manager → Manager × List Call × Found
unfolding look install_by
get_client_install usable fails service_name generation clients m =
    let (m', client) = look usable service_name (lookup service_name m.client_pools) m in
    install_by usable fails service_name generation clients client m'

-- `ConnectAll` with a new pool of one service, under the lock; whether there is an error
unfoldable pub connect_install :
    String → ℕ → List ℕ → Option ClientPool → Manager → Manager × List Call × Bool
connect_install service_name generation clients (some pool) m = (m, map closed clients, false)
connect_install service_name generation clients none m =
    if not (is_mem service_name m.services)
    then (m, map closed clients, true)
    else if m.generation == generation
    then (
      record m {
        client_pools = insert service_name (record { clients = clients; index = 0 }) m.client_pools;
      },
      [],
      false,
    )
    else (m, map closed clients, true)

unfoldable pub connect_all_install : String → ℕ → List ℕ → Manager → Manager × List Call × Bool
unfolding connect_install
connect_all_install service_name generation clients m =
    connect_install service_name generation clients (lookup service_name m.client_pools) m

-- `CloseClient`; a pool whose closing fails stays in the map, without its clients
unfoldable pub close_found :
    (ℕ → Bool) → String → Option ClientPool → Manager → Manager × List Call × Bool
unfolding close_pool
close_found fails service_name none m = (m, [], false)
close_found fails service_name (some pool) m =
    let (pool', calls, failed) = close_pool fails pool in
    if failed
    then (record m { client_pools = insert service_name pool' m.client_pools }, calls, true)
    else (record m { client_pools = erase service_name m.client_pools }, calls, false)

unfoldable pub close_client : (ℕ → Bool) → String → Manager → Manager × List Call × Bool
unfolding close_found
close_client fails service_name m =
    close_found fails service_name (lookup service_name m.client_pools)
      (record m { generation = (m.generation + 1) % uint64 })

-- the loop of `CloseAll` over the pools
unfoldable pub close_pools : (ℕ → Bool) → List (String × ClientPool) → List Call × Bool
unfolding close_pool
close_pools fails [] = ([], false)
close_pools fails ((name, pool) ∷ pools) =
    let (pool', calls, failed) = close_pool fails pool in
    let (more, failed') = close_pools fails pools in (calls ++ more, failed || failed')

unfoldable pub close_all : (ℕ → Bool) → Manager → Manager × List Call × Bool
unfolding close_pools
close_all fails m =
    let (calls, failed) = close_pools fails m.client_pools in
    (record m { client_pools = []; generation = (m.generation + 1) % uint64 }, calls, failed)

-- `IsConnected`, by which clients are connected
unfoldable pub any_connected : (ℕ → Bool) → List ℕ → Bool
any_connected connected [] = false
any_connected connected (c ∷ cs) =
    let rest = any_connected connected cs in if connected c then true else rest

unfoldable pub pool_connected : (ℕ → Bool) → Option ClientPool → Bool
unfolding any_connected
pool_connected connected none = false
pool_connected connected (some pool) = any_connected connected pool.clients

unfoldable pub is_connected : (ℕ → Bool) → String → Manager → Bool
unfolding pool_connected
is_connected connected service_name m =
    pool_connected connected (lookup service_name m.client_pools)
