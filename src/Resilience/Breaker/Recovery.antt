-- ===== src/Resilience/Breaker/Recovery.antt =====
-- resilience/circuitbreaker.go: the way back from the open state, through the half-open one.
use quickgo.Prelude.{
  ℕ, suc, ◌+◌, ◌≤◌, ◌<◌, ◌≡◌, refl, true, false, Option, none, some, List, [], ◌∷◌, arith, ◌∙◌,
  length, ap, sym,
}
use quickgo.Prelude.Int.{ℤ, pos, pos_part}
use quickgo.Prelude.Int64.{max_int, leb_ℤ, sub_time}
use quickgo.Resilience.Breaker.{
  CircuitBreaker, state_closed, state_open, state_half_open, allow, settle, to_closed, to_half_open,
}
use quickgo.Resilience.Breaker.Validity.{IsValid, IsPositive-pos, IsPositive-range}
use quickgo.Resilience.Breaker.Traces.{Call, ask, report, run}
use quickgo.Resilience.Breaker.Requests.{
  Probe, probing, admitted, run-ask, admitted-ask, run-report, admitted-report,
}

-- Every `Allow` of the list reads the clock before the pause that began at `t` is over.
abbrev pub AllEarly : {E : Type 0} → ℤ → ℕ → List (Call E) → Type 0
AllEarly d t [] = Unit {0}
AllEarly d t (ask now now' ∷ calls) = (leb_ℤ d (sub_time now t) ≡ false) × AllEarly d t calls
AllEarly d t (report now now' o ∷ calls) = AllEarly d t calls

module _ {E : Type 0} (err_circuit_open : E) where
  report_open :
      (now now' : ℕ) (o : Option E) (cb : CircuitBreaker E)
      → cb.state ≡ state_open
      → ((settle now now' o cb).state ≡ state_open)
        × ((settle now now' o cb).last_state_time ≡ cb.last_state_time)
        × ((settle now now' o cb).config ≡ cb.config)
  unfolding settle
  report_open now now' o cb h = (ground arith, ground arith, ground arith)

  ask_early :
      (now now' : ℕ) (cb : CircuitBreaker E)
      → cb.state ≡ state_open
      → leb_ℤ cb.config.open_duration (sub_time now cb.last_state_time) ≡ false
      → allow err_circuit_open now now' cb ≡ (cb, some err_circuit_open)
  unfolding allow
  ask_early now now' cb h e = ground arith

  open_blocks_from :
      (calls : List (Call E)) (cb : CircuitBreaker E) (d : ℤ) (t : ℕ)
      → cb.state ≡ state_open
      → cb.config.open_duration ≡ d
      → cb.last_state_time ≡ t
      → AllEarly d t calls
      → (admitted err_circuit_open calls cb ≡ 0)
        × ((run err_circuit_open calls cb).state ≡ state_open)
  open_blocks_from [] cb d t h e l a = unfold run admitted in (refl, h)
  open_blocks_from (ask now now' ∷ calls) cb d t h e l a =
      let early = ask_early now now' cb h (rw (e, l) a.0) in
      let (n, o) = open_blocks_from calls cb d t h e l a.1 in
      (
        admitted-ask err_circuit_open now now' cb calls early ∙ omega arith,
        rw (run-ask err_circuit_open now now' cb calls early) o,
      )
  open_blocks_from (report now now' o ∷ calls) cb d t h e l a =
      let (h', l', e') = report_open now now' o cb h in
      let (n, still) = open_blocks_from calls (settle now now' o cb) d t h' (rw e' e) (rw l' l) a in
      (
        admitted-report err_circuit_open now now' o cb calls refl ∙ n,
        rw (run-report err_circuit_open now now' o cb calls refl) still,
      )

  -- While an open breaker's pause lasts, by the clock readings of the calls, it lets no request
  -- through and stays open, whatever late outcomes are reported meanwhile.
  pub open_blocks :
      (calls : List (Call E)) (cb : CircuitBreaker E)
      → cb.state ≡ state_open
      → AllEarly cb.config.open_duration cb.last_state_time calls
      → (admitted err_circuit_open calls cb ≡ 0)
        × ((run err_circuit_open calls cb).state ≡ state_open)
  open_blocks calls cb h a =
      open_blocks_from calls cb cb.config.open_duration cb.last_state_time h refl refl a

  ask_half_open :
      (now now' : ℕ) (cb : CircuitBreaker E) (r m : ℕ)
      → cb.state ≡ state_half_open
      → cb.half_open_reqs ≡ pos r
      → cb.config.half_open_max_reqs ≡ pos m
      → r < m
      → m ≤ max_int
      → allow err_circuit_open now now' cb ≡ (record cb { half_open_reqs = pos (suc r) }, none)
  unfolding allow
  ask_half_open now now' cb r m h c e lt fit = ground arith

  -- a success below the threshold, and the success that reaches it
  success_half_open :
      (now now' : ℕ) (cb : CircuitBreaker E) (r n k : ℕ)
      → cb.state ≡ state_half_open
      → cb.success_count ≡ pos n
      → cb.config.success_threshold ≡ pos k
      → k ≤ max_int
      → suc n < k
      → settle now now' none (record cb { half_open_reqs = pos (suc r) })
        ≡ record cb { half_open_reqs = pos r; success_count = pos (suc n) }
  unfolding settle
  success_half_open now now' cb r n k h c e fit lt = ground arith

  success_closes :
      (now now' : ℕ) (cb : CircuitBreaker E) (r n k : ℕ)
      → cb.state ≡ state_half_open
      → cb.success_count ≡ pos n
      → cb.config.success_threshold ≡ pos k
      → k ≤ max_int
      → suc n ≡ k
      → settle now now' none (record cb { half_open_reqs = pos (suc r) }) ≡ to_closed now cb
  unfolding settle to_closed
  success_closes now now' cb r n k h c e fit lt = ground arith

  closes_from :
      (p : Probe) (ps : List Probe) (cb : CircuitBreaker E) (r m n k : ℕ)
      → cb.state ≡ state_half_open
      → cb.half_open_reqs ≡ pos r
      → cb.config.half_open_max_reqs ≡ pos m
      → r < m
      → m ≤ max_int
      → cb.success_count ≡ pos n
      → cb.config.success_threshold ≡ pos k
      → k ≤ max_int
      → n + length (p ∷ ps) ≡ k
      → ((run err_circuit_open (probing (p ∷ ps)) cb).state ≡ state_closed)
        × ((run err_circuit_open (probing (p ∷ ps)) cb).failure_count ≡ pos 0)
        × (admitted err_circuit_open (probing (p ∷ ps)) cb ≡ length (p ∷ ps))
  closes_from p [] cb r m n k h c e lt fit s t fit' len =
      let asked = ask_half_open p.asked p.asked' cb r m h c e lt fit in
      let last = success_closes p.reported p.reported' cb r n k h s t fit' (omega arith) in
      let runs =
        run-ask err_circuit_open p.asked p.asked' cb _ asked
        ∙ run-report err_circuit_open p.reported p.reported' none _ [] last in
      (
        ap (λ b. b.state) runs ∙ unfold run to_closed in refl,
        ap (λ b. b.failure_count) runs ∙ unfold run to_closed in refl,
        admitted-ask err_circuit_open p.asked p.asked' cb _ asked ∙ unfold admitted in omega arith,
      )
  closes_from p (q ∷ ps) cb r m n k h c e lt fit s t fit' len =
      let cb' = record cb { half_open_reqs = pos r; success_count = pos (suc n) } in
      let asked = ask_half_open p.asked p.asked' cb r m h c e lt fit in
      let more = success_half_open p.reported p.reported' cb r n k h s t fit' (omega arith) in
      let (closed, zeroed, all) =
        closes_from q ps cb' r m (suc n) k h refl e lt fit refl t fit' (omega arith) in
      let runs =
        run-ask err_circuit_open p.asked p.asked' cb _ asked
        ∙ run-report err_circuit_open p.reported p.reported' none _ (probing (q ∷ ps)) more in
      (
        ap (λ b. b.state) runs ∙ closed,
        ap (λ b. b.failure_count) runs ∙ zeroed,
        admitted-ask err_circuit_open p.asked p.asked' cb _ asked
            ∙ omega (
              arith,
              admitted-report err_circuit_open p.reported p.reported' none _ (probing (q ∷ ps))
                  more,
              all,
            ),
      )

  -- after the pause, `Allow` on an open breaker is `Allow` on a fresh half-open one
  ask_late :
      (now now' : ℕ) (cb : CircuitBreaker E)
      → IsValid cb
      → cb.state ≡ state_open
      → leb_ℤ cb.config.open_duration (sub_time now cb.last_state_time) ≡ true
      → allow err_circuit_open now now' cb ≡ allow err_circuit_open now now' (to_half_open now' cb)
  unfolding allow to_half_open
  ask_late now now' cb v h e = ground arith

  -- Once the pause of an open breaker is over, as many successful probes in a row as the success
  -- threshold close it: each of them is let through, and the count of failures starts from 0. No
  -- other call comes between.
  pub open_recovers :
      (p : Probe) (ps : List Probe) (cb : CircuitBreaker E)
      → IsValid cb
      → cb.state ≡ state_open
      → leb_ℤ cb.config.open_duration (sub_time p.asked cb.last_state_time) ≡ true
      → length (p ∷ ps) ≡ pos_part cb.config.success_threshold
      → ((run err_circuit_open (probing (p ∷ ps)) cb).state ≡ state_closed)
        × ((run err_circuit_open (probing (p ∷ ps)) cb).failure_count ≡ pos 0)
        × (admitted err_circuit_open (probing (p ∷ ps)) cb ≡ length (p ∷ ps))
  unfolding to_half_open
  open_recovers p ps cb v h e len =
      let fresh = to_half_open p.asked' cb in
      let c = cb.config in
      let late = ask_late p.asked p.asked' cb v h e in
      let rest = report p.reported p.reported' none ∷ probing ps in
      let same_run =
        run-ask err_circuit_open p.asked p.asked' cb rest late
        ∙ sym (run-ask err_circuit_open p.asked p.asked' fresh rest refl) in
      let same_count =
        admitted-ask err_circuit_open p.asked p.asked' cb rest late
        ∙ sym (admitted-ask err_circuit_open p.asked p.asked' fresh rest refl) in
      let m = IsPositive-range _ v.sane.half_open_max_reqs in
      let k = IsPositive-range _ v.sane.success_threshold in
      rw (same_run, same_count)
        (closes_from p ps fresh 0 (pos_part c.half_open_max_reqs) 0 (pos_part c.success_threshold)
          refl refl (IsPositive-pos _ v.sane.half_open_max_reqs) m.0 m.1 refl
          (IsPositive-pos _ v.sane.success_threshold) k.1 (omega arith))
