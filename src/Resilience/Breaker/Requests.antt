-- ===== src/Resilience/Breaker/Requests.antt =====
-- resilience/circuitbreaker.go: runs of a breaker, call by call, and the requests that it lets through.
use quickgo.Prelude.{ℕ, ◌+◌, ◌≡◌, Option, none, some, List, [], ◌∷◌, ap}
use quickgo.Resilience.Breaker.{CircuitBreaker, allow, settle}
use quickgo.Resilience.Breaker.Traces.{Call, ask, report, run}

-- A probe that succeeds: `Allow`, then `RecordSuccess`, with their clock readings.
pub record Probe : Type 0 where
  pub asked : ℕ
  pub asked' : ℕ
  pub reported : ℕ
  pub reported' : ℕ

abbrev pub probing : {E : Type 0} → List Probe → List (Call E)
probing [] = []
probing (p ∷ ps) = ask p.asked p.asked' ∷ report p.reported p.reported' none ∷ probing ps

module _ {E : Type 0} (err_circuit_open : E) where
  -- how many requests of a run are let through
  abbrev pub admits : Option E → ℕ
  admits none = 1
  admits (some e) = 0

  unfoldable pub admitted : List (Call E) → CircuitBreaker E → ℕ
  admitted [] cb = 0
  admitted (ask now now' ∷ calls) cb =
      let (cb', refused) = allow err_circuit_open now now' cb in admits refused + admitted calls cb'
  admitted (report now now' o ∷ calls) cb = admitted calls (settle now now' o cb)

  -- one call of a run, by what it comes to
  pub run-ask :
      (now now' : ℕ) (cb : CircuitBreaker E) {cb' : CircuitBreaker E} {o : Option E}
      (calls : List (Call E))
      → allow err_circuit_open now now' cb ≡ (cb', o)
      → run err_circuit_open (ask now now' ∷ calls) cb ≡ run err_circuit_open calls cb'
  unfolding run
  run-ask now now' cb calls e = ap (λ q. run err_circuit_open calls q.0) e

  pub admitted-ask :
      (now now' : ℕ) (cb : CircuitBreaker E) {cb' : CircuitBreaker E} {o : Option E}
      (calls : List (Call E))
      → allow err_circuit_open now now' cb ≡ (cb', o)
      → admitted (ask now now' ∷ calls) cb ≡ admits o + admitted calls cb'
  unfolding admitted
  admitted-ask now now' cb calls e = ap (λ q. admits q.1 + admitted calls q.0) e

  pub run-report :
      (now now' : ℕ) (o : Option E) (cb : CircuitBreaker E) {cb' : CircuitBreaker E}
      (calls : List (Call E))
      → settle now now' o cb ≡ cb'
      → run err_circuit_open (report now now' o ∷ calls) cb ≡ run err_circuit_open calls cb'
  unfolding run
  run-report now now' o cb calls e = ap (run err_circuit_open calls) e

  pub admitted-report :
      (now now' : ℕ) (o : Option E) (cb : CircuitBreaker E) {cb' : CircuitBreaker E}
      (calls : List (Call E))
      → settle now now' o cb ≡ cb'
      → admitted (report now now' o ∷ calls) cb ≡ admitted calls cb'
  unfolding admitted
  admitted-report now now' o cb calls e = ap (admitted calls) e
