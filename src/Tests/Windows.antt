-- ===== src/Tests/Windows.antt =====
-- resilience/ratelimit.go at concrete inputs: a window of 10 ns and 2 requests.
use quickgo.Prelude.{◌≤◌, ◌≡◌, refl, true, false, List, [], ◌∷◌, arith}
use quickgo.Prelude.Int.{pos, negsuc, ◌-ℤ◌}
use quickgo.Resilience.SlidingWindow.{new_sliding_window_limiter, allow_n}
use quickgo.Resilience.SlidingWindow.Log.{Ask, within}
use quickgo.Resilience.SlidingWindow.Runs.{
  answers, log_answers, passed, answers-log_answers, within-passed-le,
}

abbrev asks : List Ask
asks =
    record { now = 1; now' = 1; n = pos 1 }
    ∷ record { now = 4; now' = 5; n = pos 1 }
    ∷ record { now = 6; now' = 6; n = pos 1 }
    ∷ record { now = 7; now' = 7; n = negsuc 3 }
    ∷ record { now = 11; now' = 11; n = pos 1 }
    ∷ []

answers-log_answers_example :
    answers (new_sliding_window_limiter (record { window_size = pos 10; max_reqs = pos 2 })) asks
    ≡ log_answers 10 2 [] asks
answers-log_answers_example =
    answers-log_answers 10 2 asks (omega arith) (omega arith) (omega arith) (omega arith)

within-passed-le_example :
    within 10 1 (
      passed
        (answers
          (new_sliding_window_limiter (record { window_size = pos 10; max_reqs = pos 2 }))
          asks)
        asks)
    ≤ 2
within-passed-le_example =
    within-passed-le 10 2 asks 1 (omega arith) (omega arith) (omega arith) (omega arith)

-- The third request finds the window full and the fourth asks for -4; the fifth finds room, since the
-- first request has left the window.
asks_answered :
    answers (new_sliding_window_limiter (record { window_size = pos 10; max_reqs = pos 2 })) asks
    ≡ true ∷ true ∷ false ∷ false ∷ true ∷ []
unfolding answers new_sliding_window_limiter allow_n ◌-ℤ◌
asks_answered = refl
