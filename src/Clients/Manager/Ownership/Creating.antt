-- ===== src/Clients/Manager/Ownership/Creating.antt =====
-- grpc_client.go: the creation of a pool opens its clients, or closes all that it opened.
use quickgo.Prelude.{
  ℕ, zero, suc, ◌+◌, ◌≡◌, refl, ◌==◌, Option, none, some, List, [], ◌∷◌, ◌++◌, arith,
}
use quickgo.Prelude.Counts.{copies, one_if, times, times-append}
use quickgo.Clients.Pool.{
  Call, Creation, ready, not_created, not_connected, by_creation, create_from, create_client_pool,
  at_least_one,
}
use quickgo.Clients.Manager.Ownership.Pools.{opens, closes, closed_all}

abbrev pub in_made : ℕ → Option (List ℕ) → ℕ
in_made i none = 0
in_made i (some clients) = copies i clients

-- What a creation returns, of a pool that has clients already
abbrev MadeFrom : ℕ → List ℕ → List Call × Option (List ℕ) → Type 0
MadeFrom i made o = times (opens i) o.0 + copies i made ≡ times (closes i) o.0 + in_made i o.1

by_creation-MadeFrom :
    {E : Type 0} (i : ℕ) (made : List ℕ) (next : ℕ → List Call × Option (List ℕ))
    (answer : Creation E)
    → ((id : ℕ) → MadeFrom i (made ++ id ∷ []) (next id))
    → MadeFrom i made (by_creation made next answer)
unfolding by_creation
by_creation-MadeFrom i made next (ready id) h =
    omega (arith, h id, times-append (λ c. one_if (c == i)) made (id ∷ []))
by_creation-MadeFrom i made next (not_created e) h = omega (arith, closed_all i made)
by_creation-MadeFrom i made next (not_connected id e) h = omega (arith, closed_all i made)

create_from-MadeFrom :
    {E : Type 0} (i : ℕ) (answer : ℕ → Creation E) (left k : ℕ) (made : List ℕ)
    → MadeFrom i made (create_from answer left k made)
unfolding create_from
create_from-MadeFrom i answer zero k made = refl
create_from-MadeFrom i answer (suc left) k made =
    by_creation-MadeFrom i made _ (answer k)
      (λ id. create_from-MadeFrom i answer left (suc k) (made ++ id ∷ []))

pub create_client_pool-counted :
    {E : Type 0} (i : ℕ) (answer : ℕ → Creation E) (size : ℕ)
    → times (opens i) (create_client_pool answer size).0
      ≡ times (closes i) (create_client_pool answer size).0
        + in_made i (create_client_pool answer size).1
unfolding create_client_pool
create_client_pool-counted i answer size =
    omega (arith, create_from-MadeFrom i answer (at_least_one size) 0 [])
