-- ===== src/Resilience/SlidingWindow.antt =====
-- resilience/ratelimit.go: the sliding-window limiter. `AllowN` holds the lock throughout and reads the
-- clock twice: `now` in `cleanup` and `now'` for the timestamps that it adds.
pub mod Ascending
pub mod Log
pub mod Tracking
pub mod Refinement
pub mod Runs
use quickgo.Prelude.{
  ℕ, zero, suc, ◌++◌, Bool, true, false, List, [], ◌∷◌, length, if◌then◌else◌, ◌||◌,
}
use quickgo.Prelude.Int.{ℤ, pos, ltb_ℤ, ◌-ℤ◌, pos_part}
use quickgo.Prelude.Int64.{leb_ℤ, int_add}

pub record SlidingWindowConfig : Type 0 where
  pub window_size : ℤ
  pub max_reqs : ℤ

pub record SlidingWindowLimiter : Type 0 where
  pub window_size : ℤ
  pub max_reqs : ℤ
  pub timestamps : List ℕ

unfoldable pub new_sliding_window_limiter : SlidingWindowConfig → SlidingWindowLimiter
new_sliding_window_limiter config = record {
  window_size = if leb_ℤ config.window_size (pos 0) then pos 1000000000 else config.window_size;
  max_reqs = if leb_ℤ config.max_reqs (pos 0) then pos 100 else config.max_reqs;
  timestamps = [];
}

-- The loop of `cleanup` and the slice after it: all before the first timestamp that is after the
-- threshold goes.
unfoldable pub drop_old : ℤ → List ℕ → List ℕ
drop_old threshold [] = []
drop_old threshold (t ∷ ts) = if ltb_ℤ threshold (pos t) then t ∷ ts else drop_old threshold ts

unfoldable pub cleanup : ℕ → SlidingWindowLimiter → SlidingWindowLimiter
unfolding drop_old ◌-ℤ◌
cleanup now l = record l { timestamps = drop_old (pos now -ℤ l.window_size) l.timestamps }

-- the loop that appends `now` once for each request
unfoldable pub append_n : ℕ → ℕ → List ℕ → List ℕ
append_n zero now ts = ts
append_n (suc n) now ts = append_n n now (ts ++ now ∷ [])

unfoldable pub allow_n : ℕ → ℕ → ℤ → SlidingWindowLimiter → SlidingWindowLimiter × Bool
unfolding cleanup append_n int_add
allow_n now now' n l =
    if leb_ℤ n (pos 0) || ltb_ℤ l.max_reqs n
    then (l, false)
    else (let l₁ = cleanup now l in
        if leb_ℤ (int_add (pos (length l₁.timestamps)) n) l₁.max_reqs
        then (record l₁ { timestamps = append_n (pos_part n) now' l₁.timestamps }, true)
        else (l₁, false))

unfoldable pub allow : ℕ → ℕ → SlidingWindowLimiter → SlidingWindowLimiter × Bool
unfolding allow_n
allow now now' l = allow_n now now' (pos 1) l
