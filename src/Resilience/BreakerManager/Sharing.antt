-- ===== src/Resilience/BreakerManager/Sharing.antt =====
-- resilience/circuitbreaker.go: who shares a breaker with whom, under any interleaving of `Get` and of
-- the breakers' own methods.
use quickgo.Prelude.{
  ℕ, ◌<◌, ◌≡◌, none, some, String, List, [], ◌∷◌, ◌++◌, arith, inl, inr, length, ap, Option-cases,
  ◌∙◌,
}
use quickgo.Prelude.Dict.{lookup, insert, lookup-insert_self, lookup-insert_ne}
use quickgo.Resilience.Breaker.{CircuitBreaker, new_circuit_breaker}
use quickgo.Resilience.BreakerManager.{CircuitBreakerManager, get_locked, get, call}

-- What a goroutine does in one step: the locked part of `Get`, or a method of the breaker at an address.
pub data Action (E : Type 0) : Type 0 where
  create : ℕ → String → Action E
  apply : ℕ → (CircuitBreaker E → CircuitBreaker E) → Action E

module _ {E : Type 0} where
  abbrev pub act : Action E → CircuitBreakerManager E → CircuitBreakerManager E
  act (create now name) m = (get_locked now name m).0
  act (apply cb f) m = call cb f m

  unfoldable pub acts : List (Action E) → CircuitBreakerManager E → CircuitBreakerManager E
  acts [] m = m
  acts (a ∷ as') m = acts as' (act a m)

  -- Every address that the map holds is in the heap, and no two names have the same one.
  pub record IsWellFormed (m : CircuitBreakerManager E) : Type 0 where
    pub in_heap : (k : String) (cb : ℕ) → lookup k m.breakers ≡ some cb → cb < length m.heap
    pub distinct :
        (k j : String) (cb : ℕ)
        → lookup k m.breakers ≡ some cb
        → lookup j m.breakers ≡ some cb
        → k ≡ j

  pub get_locked_old :
      (now : ℕ) (name : String) (m : CircuitBreakerManager E) {cb : ℕ}
      → lookup name m.breakers ≡ some cb
      → get_locked now name m ≡ (m, cb)
  unfolding get_locked
  get_locked_old now name m h = rw (h, get_locked)

  pub get_locked_new :
      (now : ℕ) (name : String) (m : CircuitBreakerManager E)
      → lookup name m.breakers ≡ none
      → get_locked now name m ≡ (
        record m {
          breakers = insert name (length m.heap) m.breakers;
          heap = m.heap ++ new_circuit_breaker now name m.config ∷ [];
        },
        length m.heap,
      )
  unfolding get_locked
  get_locked_new now name m h = rw (h, get_locked)

  get_locked-finds :
      (now : ℕ) (name : String) (m : CircuitBreakerManager E)
      → lookup name (get_locked now name m).0.breakers ≡ some (get_locked now name m).1
  get_locked-finds now name m = elim (Option-cases (lookup name m.breakers)) [
    | inl e ↦ rw (get_locked_new now name m e) (lookup-insert_self name (length m.heap) m.breakers)
    | inr (cb, e) ↦ rw (get_locked_old now name m e) e
  ]

  lookup-act :
      (a : Action E) (m : CircuitBreakerManager E) (k : String) {cb : ℕ}
      → lookup k m.breakers ≡ some cb
      → lookup k (act a m).breakers ≡ some cb
  lookup-act (create now name) m k h = elim (Option-cases (lookup name m.breakers)) [
    | inl e ↦
        rw (act, get_locked_new now name m e)
          (lookup-insert_ne name k (length m.heap) m.breakers
              (λ p. cc (ap (λ n. lookup n m.breakers) p))
            ∙ h)
    | inr (old, e) ↦ rw (act, get_locked_old now name m e) h
  ]
  lookup-act (apply cb f) m k h = unfold call in ground arith

  lookup-acts :
      (as' : List (Action E)) (m : CircuitBreakerManager E) (k : String) {cb : ℕ}
      → lookup k m.breakers ≡ some cb
      → lookup k (acts as' m).breakers ≡ some cb
  unfolding acts
  lookup-acts [] m k h = h
  lookup-acts (a ∷ as') m k h = lookup-acts as' (act a m) k (lookup-act a m k h)

  get_present :
      (now : ℕ) (name : String) (between : List (Action E)) (m : CircuitBreakerManager E) {cb : ℕ}
      → lookup name m.breakers ≡ some cb
      → (get now name (acts between) m).1 ≡ cb
  unfolding get
  get_present now name between m h = rw (h, get)

  get-finds :
      (now : ℕ) (name : String) (between : List (Action E)) (m : CircuitBreakerManager E)
      → let (m', cb) = get now name (acts between) m in lookup name m'.breakers ≡ some cb
  unfolding get
  get-finds now name between m = elim (Option-cases (lookup name m.breakers)) [
    | inl e ↦ rw (e, get) (get_locked-finds now name (acts between m))
    | inr (cb, e) ↦ rw (e, get) e
  ]

  -- Two goroutines that ask for one name share one breaker, however their calls interleave: `Get`, with
  -- any steps of others between its two looks, and any later `Get` of the name, with any steps before
  -- it and between its own looks, hand out the same address.
  pub get-get :
      (now now' : ℕ) (name : String) (between later between' : List (Action E))
      (m : CircuitBreakerManager E)
      → let (m', cb) = get now name (acts between) m in
        (get now' name (acts between') (acts later m')).1 ≡ cb
  get-get now now' name between later between' m =
      get_present now' name between' (acts later (get now name (acts between) m).0)
        (lookup-acts later _ name (get-finds now name between m))
