-- ===== src/Resilience/SlidingWindow/Log.antt =====
-- resilience/ratelimit.go: the sliding-window limiter against a log of all the requests that it ever
-- let through. The log is the specification: it forgets nothing and keeps no second list.
use quickgo.Prelude.{
  ℕ, zero, suc, ◌+◌, ◌≤◌, ◌<◌, ◌≡◌, refl, Bool, true, false, List, [], ◌∷◌, ◌++◌, arith, inl, inr,
  length, ap, sym, if◌then◌else◌, Bool-cases, ltb, leb, ◌∙◌, replicate,
}
use mathlib.Core.List.{append-nil, append_assoc}
use quickgo.Prelude.Int.{ℤ, pos, ltb_ℤ, ◌-ℤ◌, pos_part}
use quickgo.Resilience.SlidingWindow.Ascending.{All, Ascending}
use quickgo.Resilience.SlidingWindow.{drop_old, append_n}

-- How many entries of a log lie in the window of length `w` that ends at `now`, its start left out.
abbrev pub recent : ℕ → ℕ → List ℕ → ℕ
recent w now [] = 0
recent w now (t ∷ ts) = if ltb now (t + w) then suc (recent w now ts) else recent w now ts

-- How many lie in the window of length `w` that begins after `a`.
abbrev pub within : ℕ → ℕ → List ℕ → ℕ
within w a [] = 0
within w a (t ∷ ts) =
    let rest = within w a ts in if ltb a t then (if leb t (a + w) then suc rest else rest) else rest

-- A request for `n` at two readings of the clock.
pub record Ask : Type 0 where
  pub now : ℕ
  pub now' : ℕ
  pub n : ℤ

abbrev pub Log : Type 0
Log = List ℕ

-- The specification of one request: allowed if `n` is positive and it fits beside the recent ones.
unfoldable pub log_step : ℕ → ℕ → Ask → Log → Log × Bool
log_step w max a log =
    let n = pos_part a.n in
    if ltb 0 n
    then (if leb (recent w a.now log + n) max
        then (log ++ replicate n a.now', true)
        else (log, false))
    else (log, false)

pub append_n-replicate : (n now : ℕ) (ts : List ℕ) → append_n n now ts ≡ ts ++ replicate n now
unfolding append_n
append_n-replicate zero now ts = sym (append-nil ts)
append_n-replicate (suc n) now ts =
    append_n-replicate n now (ts ++ now ∷ []) ∙ append_assoc ts (now ∷ []) (replicate n now)

pub recent-append :
    (w now : ℕ) (xs ys : List ℕ) → recent w now (xs ++ ys) ≡ recent w now xs + recent w now ys
recent-append w now [] ys = omega arith
recent-append w now (x ∷ xs) ys = ground (arith, recent-append w now xs ys)

pub recent_old : (w now : ℕ) (xs : List ℕ) → All (λ t. t + w ≤ now) xs → recent w now xs ≡ 0
recent_old w now [] h = refl
recent_old w now (x ∷ xs) h = ground (arith, recent_old w now xs h.1)

recent_new :
    (w now x : ℕ) (xs : List ℕ) → now < x + w → All (λ t. x ≤ t) xs → recent w now xs ≡ length xs
recent_new w now x [] p h = refl
recent_new w now x (y ∷ ys) p h = ground (arith, recent_new w now x ys p h.1)

pub after_threshold : (now w t : ℕ) → ltb_ℤ (pos now -ℤ pos w) (pos t) ≡ ltb now (t + w)
unfolding ◌-ℤ◌
after_threshold now w t = ground arith

-- On an ascending list `cleanup` keeps exactly the recent entries.
pub length-drop_old :
    (w now : ℕ) (ts : List ℕ)
    → Ascending ts
    → length (drop_old (pos now -ℤ pos w) ts) ≡ recent w now ts
unfolding drop_old
length-drop_old w now [] h = refl
length-drop_old w now (t ∷ ts) h = elim (Bool-cases (ltb now (t + w))) [
  | inl e ↦
      rw (drop_old, after_threshold now w t, e)
        (ap suc (sym (recent_new w now t ts (ground arith) h.0)))
  | inr e ↦ rw (drop_old, after_threshold now w t, e) (length-drop_old w now ts h.1)
]
