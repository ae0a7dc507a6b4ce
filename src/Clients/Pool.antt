-- ===== src/Clients/Pool.antt =====
-- grpc_client.go: `clientPool`. A client is a number; whether it is usable, what its creation and its
-- connection answer and whether closing it fails come from the environment.
pub mod Places
pub mod Picking
use quickgo.Prelude.{
  ℕ, zero, suc, ◌+◌, ◌%◌, ◌^◌, Bool, true, false, Option, none, some, List, [], ◌∷◌, ◌++◌, map,
  length, get_elem?, if◌then◌else◌,
}

-- 2 ^ 64
abbrev pub uint64 : ℕ
uint64 = 18446744073709551616

pub record ClientPool : Type 0 where
  pub clients : List ℕ
  pub index : ℕ

-- The client at an index, if it is usable.
unfoldable pub usable_at : (ℕ → Bool) → List ℕ → ℕ → Option ℕ
usable_at usable clients idx = elim (get_elem? clients idx) [
  | none ↦ none
  | some client ↦ if usable client then some client else none
]

unfoldable pub or_next : Option ℕ → Option ℕ → Option ℕ
or_next none later = later
or_next (some client) later = some client

-- The loop of `getClient`, with `left` rounds to go from `offset` on.
unfoldable pub scan : (ℕ → Bool) → List ℕ → ℕ → ℕ → ℕ → Option ℕ
unfolding usable_at or_next
scan usable clients start offset zero = none
scan usable clients start offset (suc left) =
    or_next (usable_at usable clients (((start + offset) % uint64) % length clients))
      (scan usable clients start (suc offset) left)

unfoldable pub get_client_from : (ℕ → Bool) → ℕ → List ℕ → ClientPool × Option ℕ
unfolding scan
get_client_from usable index [] = (record { clients = []; index = index }, none)
get_client_from usable index (c ∷ cs) = (
  record { clients = c ∷ cs; index = (index + 1) % uint64 },
  scan usable (c ∷ cs) index 0 (length (c ∷ cs)),
)

unfoldable pub get_client : (ℕ → Bool) → ClientPool → ClientPool × Option ℕ
unfolding get_client_from
get_client usable p = get_client_from usable p.index p.clients

-- What is done to a client.
pub data Call : Type 0 where
  opened closed : ℕ → Call

-- `createClient` and `Connect` of one client of a new pool
pub data Creation (E : Type 0) : Type 0 where
  ready : ℕ → Creation E
  not_created : E → Creation E
  not_connected : ℕ → E → Creation E

-- One round of the loop of `createClientPool`, with the clients that it has and what the next rounds do.
unfoldable pub by_creation :
    {E : Type 0}
    → List ℕ
    → (ℕ → List Call × Option (List ℕ))
    → Creation E
    → List Call × Option (List ℕ)
by_creation made next (ready id) = let (calls, result) = next id in (opened id ∷ calls, result)
by_creation made next (not_created e) = (map closed made, none)
by_creation made next (not_connected id e) = (opened id ∷ closed id ∷ map closed made, none)

unfoldable pub create_from :
    {E : Type 0} → (ℕ → Creation E) → ℕ → ℕ → List ℕ → List Call × Option (List ℕ)
unfolding by_creation
create_from answer zero i made = ([], some made)
create_from answer (suc left) i made =
    by_creation made (λ id. create_from answer left (suc i) (made ++ id ∷ [])) (answer i)

-- `if poolSize <= 0 { poolSize = 1 }`, of a size that is not negative
unfoldable pub at_least_one : ℕ → ℕ
at_least_one zero = 1
at_least_one (suc n) = suc n

-- `createClientPool` of a size: the clients of the pool, or none for an error
unfoldable pub create_client_pool :
    {E : Type 0} → (ℕ → Creation E) → ℕ → List Call × Option (List ℕ)
unfolding create_from at_least_one
create_client_pool answer pool_size = create_from answer (at_least_one pool_size) 0 []

-- `close`: the pool, what is closed, and whether it failed
unfoldable pub any_fails : (ℕ → Bool) → List ℕ → Bool
any_fails fails [] = false
any_fails fails (c ∷ cs) = let rest = any_fails fails cs in if fails c then true else rest

unfoldable pub close_pool : (ℕ → Bool) → ClientPool → ClientPool × List Call × Bool
unfolding any_fails
close_pool fails p = (record p { clients = [] }, map closed p.clients, any_fails fails p.clients)
