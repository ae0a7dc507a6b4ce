-- ===== src/Tests/Shutdowns.antt =====
-- lifecycle/shutdown.go with three hooks, whose functions are numbers; the last one fails.
use quickgo.Prelude.{ℕ, ◌==◌, ◌≡◌, Bool, false, none, some, List, [], ◌∷◌, String, if◌then◌else◌}
use quickgo.Prelude.Int.{pos}
use quickgo.Lifecycle.Shutdown.{ShutdownHook, ShutdownManager, Env, new_shutdown_manager, shutdown}
use quickgo.Lifecycle.Shutdown.Runs.{
  Op, add, begin, shut, run, taken, first_shutdown, expected, new_shutdown_manager-run,
  shutdown-again,
}

-- A sort that keeps the order of hooks of one priority.
abbrev place :
    (ShutdownHook ℕ → ShutdownHook ℕ → Bool)
    → ShutdownHook ℕ
    → List (ShutdownHook ℕ)
    → List (ShutdownHook ℕ)
place before x [] = x ∷ []
place before x (y ∷ ys) = if before y x then y ∷ place before x ys else x ∷ y ∷ ys

abbrev sort :
    (ShutdownHook ℕ → ShutdownHook ℕ → Bool) → List (ShutdownHook ℕ) → List (ShutdownHook ℕ)
sort before [] = []
sort before (x ∷ xs) = place before x (sort before xs)

abbrev hook : String → ℕ → ShutdownHook ℕ
hook name n = record { name = name; priority = pos n; func = some n; timeout = pos 0 }

abbrev answers : Env ℕ String
answers = record {
  answer = λ n t. if n == 800 then some "disk full" else none;
  is_done = λ n. false;
}

abbrev ops : List (Op ℕ String)
ops =
    add (hook "logger" 800)
    ∷ add (hook "http" 100)
    ∷ begin
    ∷ add (hook "late" 0)
    ∷ shut answers
    ∷ add (hook "later" 0)
    ∷ shut answers
    ∷ []

new_shutdown_manager-run_example :
    (run sort ops (new_shutdown_manager (pos 0))).1 ≡ hook "http" 100 ∷ hook "logger" 800 ∷ []
unfolding first_shutdown taken expected
new_shutdown_manager-run_example = new_shutdown_manager-run sort (pos 0) ops

abbrev after : ShutdownManager ℕ String
after = (run sort ops (new_shutdown_manager (pos 0))).0

shutdown-again_example :
    ((shutdown sort answers (run sort ops (shutdown sort answers after).0).0).1 ≡ [])
    × ((shutdown sort answers (run sort ops (shutdown sort answers after).0).0).2
        ≡ (shutdown sort answers after).2)
shutdown-again_example = shutdown-again sort after answers answers ops
