-- ===== src/Resilience/BreakerManager/Isolation.antt =====
-- resilience/circuitbreaker.go: the breakers of different names share nothing.
use quickgo.Prelude.{
  ℕ, ◌<◌, ◌≡◌, ◌≢◌, some, String, List, [], ◌∷◌, ◌++◌, arith, inl, inr, length, get_elem?,
  Option-cases, Bool-cases, length-append, length-set, get_elem?-set_ne,
}
use quickgo.Prelude.Dict.{lookup, insert, lookup-insert, ◌is◌, eq_of_is}
use quickgo.Resilience.Breaker.{CircuitConfig, CircuitBreaker}
use quickgo.Resilience.BreakerManager.{CircuitBreakerManager, new_circuit_breaker_manager, call}
use quickgo.Resilience.BreakerManager.Sharing.{
  Action, create, apply, act, acts, IsWellFormed, get_locked_old, get_locked_new,
}

module _ {E : Type 0} where
  new_circuit_breaker_manager-IsWellFormed :
      (heap : List (CircuitBreaker E)) (config : CircuitConfig E)
      → IsWellFormed (new_circuit_breaker_manager heap config)
  unfolding new_circuit_breaker_manager lookup
  new_circuit_breaker_manager-IsWellFormed heap config = record {
    in_heap = λ k cb h. cc;
    distinct = λ k j cb h h'. cc;
  }

  length-call :
      (a : ℕ) (f : CircuitBreaker E → CircuitBreaker E) (m : CircuitBreakerManager E)
      → length (call a f m).heap ≡ length m.heap
  unfolding call
  length-call a f m = elim (Option-cases (get_elem? m.heap a)) [
    | inl e ↦ rw (e, call)
    | inr (b, e) ↦ rw (e, call) (length-set m.heap a (f b))
  ]

  breakers-call :
      (a : ℕ) (f : CircuitBreaker E → CircuitBreaker E) (m : CircuitBreakerManager E)
      → (call a f m).breakers ≡ m.breakers
  unfolding call
  breakers-call a f m = ground arith

  -- the map after a new name: `n` is the address given to it, past the heap's end
  new_in_heap :
      (name k : String) (m : CircuitBreakerManager E) (b : CircuitBreaker E) (cb : ℕ)
      → IsWellFormed m
      → lookup k (insert name (length m.heap) m.breakers) ≡ some cb
      → cb < length (m.heap ++ b ∷ [])
  new_in_heap name k m b cb w h = elim (Bool-cases (name is k)) [
    | inl e ↦
        ground
          (arith, lookup-insert name k (length m.heap) m.breakers, length-append m.heap (b ∷ []))
    | inr e ↦ ground (
      arith,
      lookup-insert name k (length m.heap) m.breakers,
      length-append m.heap (b ∷ []),
      w.in_heap k cb,
    )
  ]

  new_distinct :
      (name k j : String) (m : CircuitBreakerManager E) (cb : ℕ)
      → IsWellFormed m
      → lookup k (insert name (length m.heap) m.breakers) ≡ some cb
      → lookup j (insert name (length m.heap) m.breakers) ≡ some cb
      → k ≡ j
  new_distinct name k j m cb w h h' = ground (
    arith,
    lookup-insert name k (length m.heap) m.breakers,
    lookup-insert name j (length m.heap) m.breakers,
    eq_of_is name k,
    eq_of_is name j,
    w.in_heap k cb,
    w.in_heap j cb,
    w.distinct k j cb,
  )

  act-IsWellFormed :
      (a : Action E) (m : CircuitBreakerManager E) → IsWellFormed m → IsWellFormed (act a m)
  act-IsWellFormed (create now name) m w = elim (Option-cases (lookup name m.breakers)) [
    | inl e ↦
        rw (act, get_locked_new now name m e)
          (record {
            in_heap = λ k cb h. new_in_heap name k m _ cb w h;
            distinct = λ k j cb h h'. new_distinct name k j m cb w h h';
          })
    | inr (cb, e) ↦ rw (act, get_locked_old now name m e) w
  ]
  act-IsWellFormed (apply a f) m w = record {
    in_heap = λ k cb h. rw (length-call a f m) (w.in_heap k cb (rw (breakers-call a f m) at h));
    distinct = λ k j cb h h'.
        w.distinct k j cb (rw (breakers-call a f m) at h) (rw (breakers-call a f m) at h');
  }

  acts-IsWellFormed :
      (as' : List (Action E)) (m : CircuitBreakerManager E)
      → IsWellFormed m
      → IsWellFormed (acts as' m)
  unfolding acts
  acts-IsWellFormed [] m w = w
  acts-IsWellFormed (a ∷ as') m w = acts-IsWellFormed as' (act a m) (act-IsWellFormed a m w)

  get_elem?-call_ne :
      (a b : ℕ) (f : CircuitBreaker E → CircuitBreaker E) (m : CircuitBreakerManager E)
      → a ≢ b
      → get_elem? (call a f m).heap b ≡ get_elem? m.heap b
  unfolding call
  get_elem?-call_ne a b f m ne = elim (Option-cases (get_elem? m.heap a)) [
    | inl e ↦ rw (e, call)
    | inr (c, e) ↦ rw (e, call) (get_elem?-set_ne m.heap (f c) ne)
  ]

  -- After any steps of a new manager, a method of the breaker of one name leaves the breaker of every
  -- other name as it is.
  pub call-keeps_others :
      (heap : List (CircuitBreaker E)) (config : CircuitConfig E) (steps : List (Action E))
      (name other : String) (cb cb' : ℕ) (f : CircuitBreaker E → CircuitBreaker E)
      → lookup name (acts steps (new_circuit_breaker_manager heap config)).breakers ≡ some cb
      → lookup other (acts steps (new_circuit_breaker_manager heap config)).breakers ≡ some cb'
      → name ≢ other
      → let m = acts steps (new_circuit_breaker_manager heap config) in
        get_elem? (call cb f m).heap cb' ≡ get_elem? m.heap cb'
  call-keeps_others heap config steps name other cb cb' f h h' ne =
      let m = acts steps (new_circuit_breaker_manager heap config) in
      let w = acts-IsWellFormed steps _ (new_circuit_breaker_manager-IsWellFormed heap config) in
      get_elem?-call_ne cb cb' f m (λ e. ne (w.distinct name other cb h (rw e h')))
