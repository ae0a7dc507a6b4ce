-- ===== src/Resilience/BreakerManager.antt =====
-- resilience/circuitbreaker.go: `CircuitBreakerManager`, which hands out one breaker for each name. A
-- `*CircuitBreaker` is a pointer that all its users share, so the breakers stand in a heap, and the
-- manager's map holds their addresses.
pub mod Sharing
pub mod Isolation
use quickgo.Prelude.{
  ℕ, zero, suc, ◌+◌, ◌-◌, ◌≤◌, ◌<◌, ◌≡◌, ◌≢◌, refl, Bool, true, false, Option, none, some, String,
  List, [], ◌∷◌, ◌++◌, arith, ◌⊎◌, inl, inr, length, ap, sym, get_elem?, set, if◌then◌else◌,
  Option-cases, length-append, length-set, get_elem?-set_ne, map,
}
use quickgo.Prelude.Dict.{
  lookup, insert, lookup-insert, lookup-insert_self, lookup-insert_ne, ◌is◌, is_refl, eq_of_is,
}
use quickgo.Resilience.Breaker.{CircuitConfig, CircuitBreaker, new_circuit_breaker, Stats, stats}

pub record CircuitBreakerManager (E : Type 0) : Type 0 where
  pub breakers : List (String × ℕ)
  pub config : CircuitConfig E
  pub heap : List (CircuitBreaker E)

module _ {E : Type 0} where
  unfoldable pub new_circuit_breaker_manager :
      List (CircuitBreaker E) → CircuitConfig E → CircuitBreakerManager E
  new_circuit_breaker_manager heap config = record { breakers = []; config = config; heap = heap }

  -- `Get` under the write lock: look once more, then create.
  unfoldable pub get_locked : ℕ → String → CircuitBreakerManager E → CircuitBreakerManager E × ℕ
  get_locked now name m = elim (lookup name m.breakers) [
    | some cb ↦ (m, cb)
    | none ↦ (
      record m {
        breakers = insert name (length m.heap) m.breakers;
        heap = m.heap ++ new_circuit_breaker now name m.config ∷ [];
      },
      length m.heap,
    )
  ]

  -- `Get`: the look under the read lock, then the rest if it finds nothing. The two locks are taken one
  -- after the other, so a goroutine may come between; `between` is what the manager has become.
  unfoldable pub get :
      ℕ
      → String
      → (CircuitBreakerManager E → CircuitBreakerManager E)
      → CircuitBreakerManager E
      → CircuitBreakerManager E × ℕ
  unfolding get_locked
  get now name between m = elim (lookup name m.breakers) [
    | some cb ↦ (m, cb)
    | none ↦ get_locked now name (between m)
  ]

  -- a method of the breaker at an address, `f`, on the shared heap
  unfoldable pub call :
      ℕ → (CircuitBreaker E → CircuitBreaker E) → CircuitBreakerManager E → CircuitBreakerManager E
  call cb f m = elim (get_elem? m.heap cb) [
    | none ↦ m
    | some b ↦ record m { heap = set m.heap cb (f b) }
  ]

  -- the loop of `AllStats`, over the map's addresses
  unfoldable pub stats_of : List (CircuitBreaker E) → List (String × ℕ) → List (Stats E)
  stats_of heap [] = []
  stats_of heap ((name, cb) ∷ rest) = elim (get_elem? heap cb) [
    | none ↦ stats_of heap rest
    | some b ↦ stats b ∷ stats_of heap rest
  ]

  unfoldable pub all_stats : CircuitBreakerManager E → List (Stats E)
  unfolding stats_of
  all_stats m = stats_of m.heap m.breakers
