-- ===== src/Resilience/SlidingWindow/Runs.antt =====
-- resilience/ratelimit.go: whole runs of a sliding-window limiter, in the order in which the calls take
-- its lock.
use mathlib.Core.List.{append-nil, append_assoc}
use quickgo.Prelude.{
  ℕ, zero, suc, ◌+◌, ◌≤◌, ◌<◌, ◌≡◌, refl, Bool, true, false, List, [], ◌∷◌, ◌++◌, arith, ◌⊎◌, inl,
  inr, sym, replicate,
}
use quickgo.Prelude.Int.{pos, pos_part}
use quickgo.Prelude.Int64.{max_int}
use quickgo.Resilience.SlidingWindow.{SlidingWindowLimiter, new_sliding_window_limiter, allow_n}
use quickgo.Resilience.SlidingWindow.Log.{recent, within, Ask, Log, log_step}
use quickgo.Resilience.SlidingWindow.Tracking.{Tracks}
use quickgo.Resilience.SlidingWindow.Refinement.{step-Tracks}

-- The clock never goes back, from call to call and within a call.
abbrev pub InOrder : ℕ → List Ask → Type 0
InOrder t [] = Unit {0}
InOrder t (a ∷ asks) = (t ≤ a.now) × (a.now ≤ a.now') × InOrder a.now' asks

-- The answers of the limiter and of the log, and the log after a run.
unfoldable pub answers : SlidingWindowLimiter → List Ask → List Bool
answers l [] = []
answers l (a ∷ asks) = let (l', yes?) = allow_n a.now a.now' a.n l in yes? ∷ answers l' asks

unfoldable pub log_answers : ℕ → ℕ → Log → List Ask → List Bool
log_answers w max log [] = []
log_answers w max log (a ∷ asks) =
    let (log', yes?) = log_step w max a log in yes? ∷ log_answers w max log' asks

unfoldable pub log_run : ℕ → ℕ → Log → List Ask → Log
log_run w max log [] = log
log_run w max log (a ∷ asks) = log_run w max (log_step w max a log).0 asks

answers_track :
    (w max t : ℕ) (asks : List Ask) (l : SlidingWindowLimiter) (log : Log)
    → max + max ≤ max_int
    → Tracks w max t l log
    → InOrder t asks
    → answers l asks ≡ log_answers w max log asks
unfolding answers log_answers
answers_track w max t [] l log big k o = refl
answers_track w max t (a ∷ asks) l log big k o =
    let (same, k') = step-Tracks w max a big k o.0 o.1 in
    let rest = answers_track w max a.now' asks _ _ big k' o.2 in λ i. same i ∷ rest i

-- A new limiter with a positive window `w` and limit `max` answers every run of requests, whatever
-- numbers they ask for, as the log of all requests does: a request for `n` passes exactly if `n` is
-- positive and at most `max` requests, it included, lie in the window that ends with it. The clock does
-- not go back, and twice the limit fits 64 bits.
pub answers-log_answers :
    (w max : ℕ) (asks : List Ask)
    → 0 < w
    → 0 < max
    → max + max ≤ max_int
    → InOrder 0 asks
    → answers (new_sliding_window_limiter (record { window_size = pos w; max_reqs = pos max })) asks
      ≡ log_answers w max [] asks
unfolding new_sliding_window_limiter
answers-log_answers w max asks p q big o =
    answers_track w max 0 asks _ [] big
      (record {
        window = ground arith;
        limit = ground arith;
        gone = [];
        split = refl;
        gone_old = tt;
        ascending = tt;
        past = tt;
        fits = omega arith;
      })
      o

within-append : (w a : ℕ) (xs ys : Log) → within w a (xs ++ ys) ≡ within w a xs + within w a ys
within-append w a [] ys = omega arith
within-append w a (x ∷ xs) ys = ground (arith, within-append w a xs ys)

within-le-recent : (w a now : ℕ) (xs : Log) → now ≤ a + w → within w a xs ≤ recent w now xs
within-le-recent w a now [] h = omega arith
within-le-recent w a now (x ∷ xs) h = ground (arith, within-le-recent w a now xs h)

within-replicate_out : (w a x n : ℕ) → a + w < x → within w a (replicate n x) ≡ 0
within-replicate_out w a x zero h = refl
within-replicate_out w a x (suc n) h = ground (arith, within-replicate_out w a x n h)

within-replicate-le : (w a x n : ℕ) → within w a (replicate n x) ≤ n
within-replicate-le w a x zero = omega arith
within-replicate-le w a x (suc n) = ground (arith, within-replicate-le w a x n)

within-log_step :
    (w max : ℕ) (r : Ask) (log : Log) (a : ℕ)
    → r.now ≤ r.now'
    → within w a log ≤ max
    → within w a (log_step w max r log).0 ≤ max
unfolding log_step
within-log_step w max r log a o h =
    let n = pos_part r.n in
    ground (
      arith,
      within-append w a log (replicate n r.now'),
      within-le-recent w a r.now log,
      within-replicate_out w a r.now' n,
      within-replicate-le w a r.now' n,
    )

within-log_run :
    (w max t : ℕ) (log : Log) (asks : List Ask) (a : ℕ)
    → InOrder t asks
    → within w a log ≤ max
    → within w a (log_run w max log asks) ≤ max
unfolding log_run
within-log_run w max t log [] a o h = h
within-log_run w max t log (r ∷ asks) a o h =
    within-log_run w max r.now' _ asks a o.2 (within-log_step w max r log a o.1 h)

-- The requests that pass, each `n` times at the reading that its timestamps carry.
abbrev pub passed : List Bool → List Ask → Log
passed [] asks = []
passed (b ∷ bs) [] = []
passed (true ∷ bs) (a ∷ asks) = replicate (pos_part a.n) a.now' ++ passed bs asks
passed (false ∷ bs) (a ∷ asks) = passed bs asks

log_step-cases :
    (w max : ℕ) (a : Ask) (log : Log)
    → (log_step w max a log ≡ (log ++ replicate (pos_part a.n) a.now', true))
      ⊎ (log_step w max a log ≡ (log, false))
unfolding log_step
log_step-cases w max a log = ground arith

log_run-passed :
    (w max : ℕ) (log : Log) (asks : List Ask)
    → log_run w max log asks ≡ log ++ passed (log_answers w max log asks) asks
unfolding log_run log_answers
log_run-passed w max log [] = sym (append-nil log)
log_run-passed w max log (a ∷ asks) = elim (log_step-cases w max a log) [
  | inl yes! ↦
      rw (yes!, log_run-passed w max (log ++ replicate (pos_part a.n) a.now') asks)
        (append_assoc log _ _)
  | inr no! ↦ rw (no!, log_run-passed w max log asks)
]

-- However requests come at a new limiter with a positive window `w` and limit `max`, no window of
-- length `w`, wherever it begins, holds more than `max` of the requests that it lets through. The clock
-- does not go back, and twice the limit fits 64 bits.
pub within-passed-le :
    (w max : ℕ) (asks : List Ask) (a : ℕ)
    → 0 < w
    → 0 < max
    → max + max ≤ max_int
    → InOrder 0 asks
    → let l = new_sliding_window_limiter (record { window_size = pos w; max_reqs = pos max }) in
      within w a (passed (answers l asks) asks) ≤ max
within-passed-le w max asks a p q big o =
    rw (answers-log_answers w max asks p q big o, ← log_run-passed w max [] asks)
      (within-log_run w max 0 [] asks a o (omega arith))
