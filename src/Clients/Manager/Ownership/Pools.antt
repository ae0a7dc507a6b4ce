-- ===== src/Clients/Manager/Ownership/Pools.antt =====
-- grpc_client.go: the clients of the pools of a manager, counted.
use quickgo.Prelude.{
  ℕ, ◌+◌, ◌≡◌, refl, ◌==◌, Bool, Option, none, some, List, [], ◌∷◌, String, map, arith,
}
use quickgo.Prelude.Counts.{copies, one_if, times}
use quickgo.Prelude.Dict.{lookup, insert, erase}
use quickgo.Clients.Pool.{ClientPool, Call, opened, closed, get_client, get_client_from}

abbrev pub opens : ℕ → Call → ℕ
opens i (opened id) = one_if (id == i)
opens i (closed id) = 0

abbrev pub closes : ℕ → Call → ℕ
closes i (opened id) = 0
closes i (closed id) = one_if (id == i)

-- How often client `i` is in a pool, and in the pools of a map.
abbrev pub in_pool : ℕ → Option ClientPool → ℕ
in_pool i none = 0
in_pool i (some p) = copies i p.clients

abbrev pub in_pools : ℕ → List (String × ClientPool) → ℕ
in_pools i [] = 0
in_pools i ((name, p) ∷ pools) = copies i p.clients + in_pools i pools

pub in_pools-insert :
    (i : ℕ) (name : String) (p : ClientPool) (pools : List (String × ClientPool))
    → in_pools i (insert name p pools) + in_pool i (lookup name pools)
      ≡ in_pools i pools + copies i p.clients
unfolding insert lookup
in_pools-insert i name p [] = omega arith
in_pools-insert i name p ((key, old) ∷ pools) = ground (arith, in_pools-insert i name p pools)

pub in_pools-erase :
    (i : ℕ) (name : String) (pools : List (String × ClientPool))
    → in_pools i (erase name pools) + in_pool i (lookup name pools) ≡ in_pools i pools
unfolding erase lookup
in_pools-erase i name [] = omega arith
in_pools-erase i name ((key, old) ∷ pools) = ground (arith, in_pools-erase i name pools)

-- All clients of a list are closed, each as often as it is there.
pub closed_all :
    (i : ℕ) (clients : List ℕ)
    → (times (closes i) (map closed clients) ≡ copies i clients)
      × (times (opens i) (map closed clients) ≡ 0)
closed_all i [] = (refl, refl)
closed_all i (c ∷ cs) = let rest = closed_all i cs in (omega (arith, rest), omega (arith, rest))

pub get_client-keeps :
    (usable : ℕ → Bool) (p : ClientPool) → (get_client usable p).0.clients ≡ p.clients
unfolding get_client
get_client-keeps usable p = from p.index p.clients
  where
    from :
        (index : ℕ) (clients : List ℕ) → (get_client_from usable index clients).0.clients ≡ clients
    from index [] = refl
    from index (c ∷ cs) = refl
