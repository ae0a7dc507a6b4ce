-- ===== src/Tests/Clients.antt =====
-- grpc_client.go: a pool is created and used, and the manager is closed while another is created.
use quickgo.Prelude.{
  ℕ, ◌+◌, ◌≡◌, ◌==◌, refl, Bool, true, false, some, List, [], ◌∷◌, ◌%◌, String, arith,
}
use quickgo.Prelude.Counts.{times}
use quickgo.Prelude.Dict.{lookup}
use quickgo.Clients.Pool.{ClientPool, Creation, ready, get_client}
use quickgo.Clients.Pool.Picking.{rotate, first_usable, get_client-first_usable}
use quickgo.Clients.Manager.{Manager, is_connected}
use quickgo.Clients.Manager.Status.{Says, get_pool_status, get_pool_status-is_connected}
use quickgo.Clients.Manager.Steps.{
  new_system, Op, registering, starting, creating, installing, closing_all, run,
}
use quickgo.Clients.Manager.Ownership.Pools.{opens, closes}
use quickgo.Clients.Manager.Ownership.Runs.{in_system, new_manager-run}

abbrev always : ℕ → Bool
always n = true

abbrev never : ℕ → Bool
never n = false

abbrev odd : ℕ → Bool
odd n = n % 2 == 1

abbrev pool : ClientPool
pool = record { clients = 10 ∷ 11 ∷ 12 ∷ []; index = 5 }

-- From the place 2 on, 12 and 10 are not usable.
picks_eleven : (get_client odd pool).1 ≡ some 11
unfolding get_client
picks_eleven = refl

get_client-first_usable_example :
    (get_client odd pool).1 ≡ first_usable odd (rotate (5 % 3) (10 ∷ 11 ∷ 12 ∷ []))
get_client-first_usable_example = get_client-first_usable odd pool (omega arith)

-- Client `first + i` is the answer for the i-th client of a pool.
abbrev answers : ℕ → ℕ → Creation String
answers first i = ready (first + i)

-- The pool of 1 and 2 is stored and closed; the one of 3 and 4 is refused, since all is closed meanwhile.
abbrev ops : List (Op String)
ops =
    registering "users"
    ∷ starting always "users"
    ∷ creating (answers 1) 2 "users" 0
    ∷ installing always never 0
    ∷ creating (answers 3) 2 "users" 0
    ∷ closing_all never
    ∷ installing always never 0
    ∷ []

new_manager-run_example :
    times (opens 3) (run ops new_system).1
    ≡ times (closes 3) (run ops new_system).1 + in_system 3 (run ops new_system).0
new_manager-run_example = new_manager-run 3 ops

closed_once : times (closes 3) (run ops new_system).1 ≡ 1
unfolding run lookup quickgo.Prelude.Dict.insert
closed_once = refl

abbrev manager : Manager
manager = record { client_pools = ("users", pool) ∷ []; services = "users" ∷ []; generation = 0 }

get_pool_status-is_connected_example :
    Says (lookup "users" (get_pool_status odd manager)) (is_connected odd "users" manager)
get_pool_status-is_connected_example = get_pool_status-is_connected odd "users" manager
