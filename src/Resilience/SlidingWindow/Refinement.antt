-- ===== src/Resilience/SlidingWindow/Refinement.antt =====
-- resilience/ratelimit.go: the sliding-window limiter refines the log, and what the log promises.
use quickgo.Prelude.{
  ℕ, ◌+◌, ◌≤◌, ◌≡◌, refl, true, false, ◌++◌, arith, ◌⊎◌, inl, inr, length, if◌then◌else◌,
  Bool-cases, ltb, leb, replicate, ◌||◌,
}
use quickgo.Prelude.Int.{ℤ, pos, ltb_ℤ, pos_part}
use quickgo.Prelude.Int64.{leb_ℤ, int_add, max_int}
use quickgo.Resilience.SlidingWindow.{SlidingWindowLimiter, cleanup, append_n, allow_n}
use quickgo.Resilience.SlidingWindow.Log.{recent, Ask, Log, log_step}
use quickgo.Resilience.SlidingWindow.Tracking.{Tracks, cleanup-Tracks, later-Tracks, append-Tracks}

module _ (w max : ℕ) where
  fits_test :
      (len : ℕ) (n m : ℤ)
      → m ≡ pos max
      → max + max ≤ max_int
      → len ≤ max
      → pos_part n ≤ max
      → ltb 0 (pos_part n) ≡ true
      → leb_ℤ (int_add (pos len) n) m ≡ leb (len + pos_part n) max
  unfolding int_add
  fits_test len n m e h a b p = ground arith

  -- the branches of the two steps
  log_allows :
      (a : Ask) (log : Log)
      → ltb 0 (pos_part a.n) ≡ true
      → leb (recent w a.now log + pos_part a.n) max ≡ true
      → log_step w max a log ≡ (log ++ replicate (pos_part a.n) a.now', true)
  unfolding log_step
  log_allows a log p q = rw (p, q, log_step)

  log_refuses :
      (a : Ask) (log : Log)
      → (ltb 0 (pos_part a.n) ≡ false) ⊎ (leb (recent w a.now log + pos_part a.n) max ≡ false)
      → log_step w max a log ≡ (log, false)
  unfolding log_step
  log_refuses a log (inl p) = rw (p, log_step)
  log_refuses a log (inr q) = elim (Bool-cases (ltb 0 (pos_part a.n))) [
    | inl p ↦ rw (p, q, log_step)
    | inr p ↦ rw (p, log_step)
  ]

  allow_n_bad :
      (a : Ask) (l : SlidingWindowLimiter)
      → (leb_ℤ a.n (pos 0) || ltb_ℤ l.max_reqs a.n) ≡ true
      → allow_n a.now a.now' a.n l ≡ (l, false)
  unfolding allow_n
  allow_n_bad a l e = rw (e, allow_n)

  allow_n_good :
      (a : Ask) (l : SlidingWindowLimiter)
      → (leb_ℤ a.n (pos 0) || ltb_ℤ l.max_reqs a.n) ≡ false
      → let l' = cleanup a.now l in
        allow_n a.now a.now' a.n l ≡ (
          if leb_ℤ (int_add (pos (length l'.timestamps)) a.n) l'.max_reqs
          then (record l' { timestamps = append_n (pos_part a.n) a.now' l'.timestamps }, true)
          else (l', false))
  unfolding allow_n
  allow_n_good a l e = rw (e, allow_n)

  good_asks :
      (n : ℤ)
      → (leb_ℤ n (pos 0) || ltb_ℤ (pos max) n) ≡ false
      → (ltb 0 (pos_part n) ≡ true) × (pos_part n ≤ max)
  good_asks n h = ground arith

  bad_asks :
      (n : ℤ) (r : ℕ)
      → (leb_ℤ n (pos 0) || ltb_ℤ (pos max) n) ≡ true
      → (ltb 0 (pos_part n) ≡ false) ⊎ (leb (r + pos_part n) max ≡ false)
  bad_asks n r h = ground arith

  -- One request: the limiter and the log decide alike, and the limiter still tracks the log.
  pub step-Tracks :
      {t : ℕ} (a : Ask) {l : SlidingWindowLimiter} {log : Log}
      → max + max ≤ max_int
      → Tracks w max t l log
      → t ≤ a.now
      → a.now ≤ a.now'
      → ((allow_n a.now a.now' a.n l).1 ≡ (log_step w max a log).1)
        × Tracks w max a.now' (allow_n a.now a.now' a.n l).0 (log_step w max a log).0
  step-Tracks {t} a {l} {log} big k h h' =
      elim (Bool-cases (leb_ℤ a.n (pos 0) || ltb_ℤ l.max_reqs a.n)) [
        | inl e ↦
            rw (allow_n_bad a l e, log_refuses a log (bad_asks a.n _ (rw k.limit at e)))
              (refl, later-Tracks w max a.now' k (omega arith))
        | inr e ↦ good_step e
      ]
    where
      n : ℕ
      n = pos_part a.n

      l' : SlidingWindowLimiter
      l' = cleanup a.now l

      clean : Tracks w max a.now l' log × (length l'.timestamps ≡ recent w a.now log)
      clean = cleanup-Tracks w max a.now k h

      good_step :
          (leb_ℤ a.n (pos 0) || ltb_ℤ l.max_reqs a.n) ≡ false
          → ((allow_n a.now a.now' a.n l).1 ≡ (log_step w max a log).1)
            × Tracks w max a.now' (allow_n a.now a.now' a.n l).0 (log_step w max a log).0
      good_step e =
          let (some_n, small) = good_asks a.n (rw k.limit at e) in
          let fits =
            fits_test (length l'.timestamps) a.n l'.max_reqs clean.0.limit big clean.0.fits small
              some_n in
          elim (Bool-cases (leb (length l'.timestamps + n) max)) [
            | inl room ↦
                rw (allow_n_good a l e, fits, room, log_allows a log some_n (rw (← clean.1) room))
                  (refl, append-Tracks w max a.now' n clean.0 h' (ground arith))
            | inr full ↦
                rw (allow_n_good a l e, fits, full, log_refuses a log (inr (rw (← clean.1) full)))
                  (refl, later-Tracks w max a.now' clean.0 h')
          ]
