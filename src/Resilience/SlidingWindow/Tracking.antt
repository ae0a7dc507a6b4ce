-- ===== src/Resilience/SlidingWindow/Tracking.antt =====
-- resilience/ratelimit.go: what a sliding-window limiter has of the log of all that it let through.
use mathlib.Core.List.{append_assoc}
use quickgo.Prelude.{
  ℕ, ◌+◌, ◌≤◌, ◌≡◌, refl, [], ◌∷◌, ◌++◌, arith, inl, inr, length, ap, sym, if◌then◌else◌,
  Bool-cases, length-append, ltb, ◌∙◌, replicate, length-replicate,
}
use quickgo.Prelude.Int.{ℤ, pos, ltb_ℤ, ◌-ℤ◌}
use quickgo.Resilience.SlidingWindow.{SlidingWindowLimiter, drop_old, cleanup, append_n}
use quickgo.Resilience.SlidingWindow.Ascending.{
  All, Ascending, All-append, All-mono, All-replicate, Ascending-append, Ascending-replicate,
}
use quickgo.Resilience.SlidingWindow.Log.{
  recent, Log, recent-append, recent_old, length-drop_old, append_n-replicate, after_threshold,
}

-- A limiter that has let through the entries of a log, when the clock was last read at `t`: its
-- timestamps are the end of the log, and what it has dropped is out of the window.
pub record Tracks (w max t : ℕ) (l : SlidingWindowLimiter) (log : Log) : Type 0 where
  pub window : l.window_size ≡ pos w
  pub limit : l.max_reqs ≡ pos max
  pub gone : Log
  pub split : log ≡ gone ++ l.timestamps
  pub gone_old : All (λ d. d + w ≤ t) gone
  pub ascending : Ascending l.timestamps
  pub past : All (λ d. d ≤ t) l.timestamps
  pub fits : length l.timestamps ≤ max

dropped : ℕ → ℕ → Log → Log
dropped w now [] = []
dropped w now (t ∷ ts) = if ltb now (t + w) then [] else t ∷ dropped w now ts

dropped-append : (w now : ℕ) (ts : Log) → ts ≡ dropped w now ts ++ drop_old (pos now -ℤ pos w) ts
unfolding dropped drop_old
dropped-append w now [] = refl
dropped-append w now (t ∷ ts) = elim (Bool-cases (ltb now (t + w))) [
  | inl e ↦ rw (dropped, drop_old, after_threshold now w t, e)
  | inr e ↦
      rw (dropped, drop_old, after_threshold now w t, e) (ap (◌∷◌ t) (dropped-append w now ts))
]

dropped_old : (w now : ℕ) (ts : Log) → All (λ d. d + w ≤ now) (dropped w now ts)
unfolding dropped
dropped_old w now [] = tt
dropped_old w now (t ∷ ts) = elim (Bool-cases (ltb now (t + w))) [
  | inl e ↦ rw (dropped, e) tt
  | inr e ↦ rw (dropped, e) (ground arith, dropped_old w now ts)
]

drop_old-All : (P : ℕ → Type 0) (d : ℤ) (ts : Log) → All P ts → All P (drop_old d ts)
unfolding drop_old
drop_old-All P d [] h = tt
drop_old-All P d (t ∷ ts) h = elim (Bool-cases (ltb_ℤ d (pos t))) [
  | inl e ↦ rw (drop_old, e) h
  | inr e ↦ rw (drop_old, e) (drop_old-All P d ts h.1)
]

drop_old-Ascending : (d : ℤ) (ts : Log) → Ascending ts → Ascending (drop_old d ts)
unfolding drop_old
drop_old-Ascending d [] h = tt
drop_old-Ascending d (t ∷ ts) h = elim (Bool-cases (ltb_ℤ d (pos t))) [
  | inl e ↦ rw (drop_old, e) h
  | inr e ↦ rw (drop_old, e) (drop_old-Ascending d ts h.1)
]

length-drop_old-le : (d : ℤ) (ts : Log) → length (drop_old d ts) ≤ length ts
unfolding drop_old
length-drop_old-le d [] = omega arith
length-drop_old-le d (t ∷ ts) = ground (arith, length-drop_old-le d ts)

module _ (w max : ℕ) where
  pub cleanup-Tracks :
      {t : ℕ} (now : ℕ) {l : SlidingWindowLimiter} {log : Log}
      → Tracks w max t l log
      → t ≤ now
      → Tracks w max now (cleanup now l) log
        × (length (cleanup now l).timestamps ≡ recent w now log)
  unfolding cleanup
  cleanup-Tracks {t} now {l} {log} k h = (
    record {
      window = k.window;
      limit = k.limit;
      gone = k.gone ++ dropped w now l.timestamps;
      split = rw k.window (
          k.split
          ∙ ap (◌++◌ k.gone) (dropped-append w now l.timestamps)
          ∙ sym (append_assoc k.gone _ _));
      gone_old =
          All-append (λ d. d + w ≤ now) k.gone (dropped w now l.timestamps) still_old
            (dropped_old w now l.timestamps);
      ascending = drop_old-Ascending (pos now -ℤ l.window_size) l.timestamps k.ascending;
      past =
          drop_old-All (λ d. d ≤ now) (pos now -ℤ l.window_size) l.timestamps
            (All-mono (λ d. d ≤ t) (λ d. d ≤ now) l.timestamps (λ d p. omega arith) k.past);
      fits = omega (arith, length-drop_old-le (pos now -ℤ l.window_size) l.timestamps, k.fits);
    },
    rw k.window (
        omega (
          arith,
          length-drop_old w now l.timestamps k.ascending,
          recent-append w now k.gone l.timestamps,
          recent_old w now k.gone still_old,
          ap (recent w now) k.split,
        )),
  )
    where
      still_old : All (λ d. d + w ≤ now) k.gone
      still_old =
          All-mono (λ d. d + w ≤ t) (λ d. d + w ≤ now) k.gone (λ d p. omega arith) k.gone_old

  pub later-Tracks :
      {t : ℕ} (now : ℕ) {l : SlidingWindowLimiter} {log : Log}
      → Tracks w max t l log
      → t ≤ now
      → Tracks w max now l log
  later-Tracks {t} now {l} k h = record {
    window = k.window;
    limit = k.limit;
    gone = k.gone;
    split = k.split;
    ascending = k.ascending;
    fits = k.fits;
    gone_old = All-mono (λ d. d + w ≤ t) (λ d. d + w ≤ now) k.gone (λ d p. omega arith) k.gone_old;
    past = All-mono (λ d. d ≤ t) (λ d. d ≤ now) l.timestamps (λ d p. omega arith) k.past;
  }

  pub append-Tracks :
      {t : ℕ} (now n : ℕ) {l : SlidingWindowLimiter} {log : Log}
      → Tracks w max t l log
      → t ≤ now
      → length l.timestamps + n ≤ max
      → Tracks w max now
          (record l { timestamps = append_n n now l.timestamps })
          (log ++ replicate n now)
  append-Tracks {t} now n {l} {log} k h room =
      let k' = later-Tracks now k h in
      rw (append_n-replicate n now l.timestamps) (record {
        window = k.window;
        limit = k.limit;
        gone = k'.gone;
        split = ap (λ ts. ts ++ replicate n now) k'.split ∙ append_assoc k'.gone l.timestamps _;
        gone_old = k'.gone_old;
        ascending =
            Ascending-append l.timestamps (replicate n now) now k.ascending k'.past
              (Ascending-replicate n now) (All-replicate (λ y. now ≤ y) n now (omega arith));
        past =
            All-append (λ d. d ≤ now) l.timestamps (replicate n now) k'.past
              (All-replicate (λ d. d ≤ now) n now (omega arith));
        fits =
            omega
              (arith, length-append {0} l.timestamps (replicate n now), length-replicate {0} n now);
      })
