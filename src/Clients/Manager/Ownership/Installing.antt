-- ===== src/Clients/Manager/Ownership/Installing.antt =====
-- grpc_client.go: looking for a client and storing a pool keep count of the clients.
use quickgo.Prelude.{
  ℕ, ◌≡◌, refl, ap, sym, ◌==◌, Bool, not, Option, none, some, List, [], String, arith, if_both,
}
use quickgo.Prelude.Counts.{copies, times-append}
use quickgo.Prelude.Dict.{lookup, insert, is_mem}
use quickgo.Clients.Pool.{ClientPool, Call, get_client, close_pool}
use quickgo.Clients.Manager.{
  Manager, Found, look, or_otherwise, get_client_start, get_client_check, store_pool, replace_pool,
  install_by, get_client_install, connect_install, connect_all_install,
}
use quickgo.Clients.Manager.Ownership.Pools.{
  opens, closes, in_pool, in_pools, in_pools-insert, closed_all, get_client-keeps,
}
use quickgo.Clients.Manager.Ownership.Closing.{Counted, FoundIn, emptied}

module _ (i : ℕ) where
  look-counted :
      (usable : ℕ → Bool) (name : String) (found : Option ClientPool) (m : Manager)
      → FoundIn i found name m
      → in_pools i (look usable name found m).0.client_pools ≡ in_pools i m.client_pools
  unfolding look
  look-counted usable name none m e = refl
  look-counted usable name (some p) m e = omega (
    arith,
    e,
    ap (copies i) (get_client-keeps usable p),
    in_pools-insert i name (get_client usable p).0 m.client_pools,
  )

  or_otherwise-pools :
      (client : Option ℕ) (m : Manager) (otherwise : Found)
      → (or_otherwise client m otherwise).0 ≡ m
  unfolding or_otherwise
  or_otherwise-pools none m otherwise = refl
  or_otherwise-pools (some c) m otherwise = refl

  pub get_client_start-Counted :
      (usable : ℕ → Bool) (name : String) (m : Manager)
      → Counted i 0 m (get_client_start usable name m).0 []
  unfolding get_client_start
  get_client_start-Counted usable name m = omega (
    arith,
    look-counted usable name (lookup name m.client_pools) m refl,
    ap (λ (x : Manager). in_pools i x.client_pools) (or_otherwise-pools _ _ _),
  )

  pub get_client_check-Counted :
      (usable : ℕ → Bool) (name : String) (generation : ℕ) (m : Manager)
      → Counted i 0 m (get_client_check usable name generation m).0 []
  unfolding get_client_check
  get_client_check-Counted usable name generation m = omega (
    arith,
    look-counted usable name (lookup name m.client_pools) m refl,
    ap (λ (x : Manager). in_pools i x.client_pools) (or_otherwise-pools _ _ _),
  )

  -- A pool is stored where there was none, or one without client `i`.
  store_pool-Counted :
      (usable : ℕ → Bool) (name : String) (generation : ℕ) (clients : List ℕ) (m : Manager)
      → in_pool i (lookup name m.client_pools) ≡ 0
      → Counted i
          (copies i clients)
          m
          (store_pool usable name generation clients m).0
          (store_pool usable name generation clients m).1
  unfolding store_pool
  store_pool-Counted usable name generation clients m z =
      if_both (λ (o : Manager × List Call × Found). Counted i (copies i clients) m o.0 o.1)
        (not (is_mem name m.services)) (λ e. omega (arith, closed_all i clients))
        (λ e.
          if_both (λ (o : Manager × List Call × Found). Counted i (copies i clients) m o.0 o.1)
            (m.generation == generation)
            (λ e'.
              let p : ClientPool = record { clients = clients; index = 0 } in
              omega (
                arith,
                z,
                ap (copies i) (get_client-keeps usable p),
                in_pools-insert i name (get_client usable p).0 m.client_pools,
              ))
            (λ e'. omega (arith, closed_all i clients)))

  replace_pool-Counted :
      (usable fails : ℕ → Bool) (name : String) (generation : ℕ) (clients : List ℕ)
      (found : Option ClientPool) (m : Manager)
      → FoundIn i found name m
      → Counted i
          (copies i clients)
          m
          (replace_pool usable fails name generation clients found m).0
          (replace_pool usable fails name generation clients found m).1
  unfolding replace_pool
  replace_pool-Counted usable fails name generation clients none m e =
      store_pool-Counted usable name generation clients m (sym e)
  replace_pool-Counted usable fails name generation clients (some p) m e =
      let (closing, z) = emptied i fails name p m e in
      let m' : Manager = record m {
        client_pools = insert name (close_pool fails p).0 m.client_pools;
      } in
      let o = store_pool usable name generation clients m' in
      omega (
        arith,
        closing,
        store_pool-Counted usable name generation clients m' z,
        times-append (opens i) (close_pool fails p).1 o.1,
        times-append (closes i) (close_pool fails p).1 o.1,
      )

  install_by-Counted :
      (usable fails : ℕ → Bool) (name : String) (generation : ℕ) (clients : List ℕ)
      (client : Option ℕ) (m : Manager)
      → Counted i
          (copies i clients)
          m
          (install_by usable fails name generation clients client m).0
          (install_by usable fails name generation clients client m).1
  unfolding install_by
  install_by-Counted usable fails name generation clients (some c) m =
      omega (arith, closed_all i clients)
  install_by-Counted usable fails name generation clients none m =
      replace_pool-Counted usable fails name generation clients (lookup name m.client_pools) m refl

  pub get_client_install-Counted :
      (usable fails : ℕ → Bool) (name : String) (generation : ℕ) (clients : List ℕ) (m : Manager)
      → Counted i
          (copies i clients)
          m
          (get_client_install usable fails name generation clients m).0
          (get_client_install usable fails name generation clients m).1
  unfolding get_client_install
  get_client_install-Counted usable fails name generation clients m =
      let looked = look usable name (lookup name m.client_pools) m in
      omega (
        arith,
        look-counted usable name (lookup name m.client_pools) m refl,
        install_by-Counted usable fails name generation clients looked.1 looked.0,
      )

  connect_install-Counted :
      (name : String) (generation : ℕ) (clients : List ℕ) (found : Option ClientPool) (m : Manager)
      → FoundIn i found name m
      → Counted i
          (copies i clients)
          m
          (connect_install name generation clients found m).0
          (connect_install name generation clients found m).1
  unfolding connect_install
  connect_install-Counted name generation clients (some p) m e = omega (arith, closed_all i clients)
  connect_install-Counted name generation clients none m e =
      if_both (λ (o : Manager × List Call × Bool). Counted i (copies i clients) m o.0 o.1)
        (not (is_mem name m.services)) (λ e. omega (arith, closed_all i clients))
        (λ e'.
          if_both (λ (o : Manager × List Call × Bool). Counted i (copies i clients) m o.0 o.1)
            (m.generation == generation)
            (λ e''. omega (
              arith,
              e,
              in_pools-insert i name (record { clients = clients; index = 0 }) m.client_pools,
            ))
            (λ e''. omega (arith, closed_all i clients)))

  pub connect_all_install-Counted :
      (name : String) (generation : ℕ) (clients : List ℕ) (m : Manager)
      → Counted i
          (copies i clients)
          m
          (connect_all_install name generation clients m).0
          (connect_all_install name generation clients m).1
  unfolding connect_all_install
  connect_all_install-Counted name generation clients m =
      connect_install-Counted name generation clients (lookup name m.client_pools) m refl
