-- ===== src/Lifecycle/Shutdown/Runs.antt =====
-- lifecycle/shutdown.go: whole runs of a shutdown manager. A goroutine in `Shutdown` may be overtaken by
-- others between its first lock, which is the operation `begin`, and the once-only body.
use mathlib.Core.List.{append-nil, append_assoc}
use quickgo.Prelude.{
  ℕ, suc, ◌≡◌, refl, ap, sym, subst, arith, ◌∙◌, Bool, true, false, Option, none, some, List, [],
  ◌∷◌, ◌++◌, if◌then◌else◌, Bool-cases, inl, inr,
}
use quickgo.Prelude.Int.{ℤ}
use quickgo.Lifecycle.Shutdown.{
  ShutdownHook, HookError, Env, ShutdownManager, less, new_shutdown_manager, register,
  set_global_timeout, run_hooks, shutdown,
}

pub data Op (F E : Type 0) : Type 0 where
  add : ShutdownHook F → Op F E
  set_timeout : ℤ → Op F E
  begin : Op F E
  shut : Env F E → Op F E

-- The hooks registered before any shutdown begins.
unfoldable pub taken : {F E : Type 0} → List (Op F E) → List (ShutdownHook F)
taken [] = []
taken (add hook ∷ ops) = hook ∷ taken ops
taken (set_timeout t ∷ ops) = taken ops
taken (begin ∷ ops) = []
taken (shut env ∷ ops) = []

-- What happens in the first shutdown, if there is one.
unfoldable pub first_shutdown : {F E : Type 0} → List (Op F E) → Option (Env F E)
first_shutdown [] = none
first_shutdown (add hook ∷ ops) = first_shutdown ops
first_shutdown (set_timeout t ∷ ops) = first_shutdown ops
first_shutdown (begin ∷ ops) = first_shutdown ops
first_shutdown (shut env ∷ ops) = some env

-- A list up to the first place, counted from `n`, at which a test holds, this place included.
unfoldable pub up_to : {A : Type 0} → (ℕ → Bool) → ℕ → List A → List A
up_to test n [] = []
up_to test n (x ∷ xs) = let rest = up_to test (suc n) xs in x ∷ (if test n then [] else rest)

-- The hooks that ought to run.
unfoldable pub expected :
    {F E : Type 0} → Option (Env F E) → List (ShutdownHook F) → List (ShutdownHook F)
unfolding up_to
expected none sorted = []
expected (some env) sorted = up_to env.is_done 0 sorted

run_hooks-up_to :
    {F E : Type 0} (env : Env F E) (t : ℤ) (n : ℕ) (hooks : List (ShutdownHook F))
    → (run_hooks env t n hooks).0 ≡ up_to env.is_done n hooks
unfolding run_hooks up_to
run_hooks-up_to env t n [] = refl
run_hooks-up_to env t n (hook ∷ hooks) = elim (Bool-cases (env.is_done n)) [
  | inl e ↦ rw e refl
  | inr e ↦ rw e (ap (◌∷◌ hook) (run_hooks-up_to env t (suc n) hooks))
]

module _ {F E : Type 0}
    (sort : (ShutdownHook F → ShutdownHook F → Bool)
      → List (ShutdownHook F)
      → List (ShutdownHook F)) where
  unfoldable pub step : Op F E → ShutdownManager F E → ShutdownManager F E × List (ShutdownHook F)
  unfolding register set_global_timeout shutdown
  step (add hook) m = (register hook m, [])
  step (set_timeout t) m = (set_global_timeout t m, [])
  step begin m = (record m { shutdown_started = true }, [])
  step (shut env) m = let (m', ran, errs) = shutdown sort env m in (m', ran)

  -- The hooks that a run of operations runs, in order.
  unfoldable pub run :
      List (Op F E) → ShutdownManager F E → ShutdownManager F E × List (ShutdownHook F)
  unfolding step
  run [] m = (m, [])
  run (op ∷ ops) m = let (m₁, ran) = step op m in let (m₂, more) = run ops m₁ in (m₂, ran ++ more)

  -- A manager by its fields.
  abbrev manager :
      List (ShutdownHook F) → ℤ → List (HookError E) → Bool → Bool → ShutdownManager F E
  manager hooks t errs started? once? = record {
    hooks = hooks;
    global_timeout = t;
    shutdown_err = errs;
    shutdown_started = started?;
    shutdown_once = once?;
  }

  run-once :
      (ops : List (Op F E)) (hooks : List (ShutdownHook F)) (t : ℤ) (errs : List (HookError E))
      (started? : Bool)
      → ((run ops (manager hooks t errs started? true)).1 ≡ [])
        × ((run ops (manager hooks t errs started? true)).0.shutdown_err ≡ errs)
        × ((run ops (manager hooks t errs started? true)).0.shutdown_once ≡ true)
  unfolding run
  run-once [] hooks t errs s = (refl, refl, refl)
  run-once (add hook ∷ ops) hooks t errs true = run-once ops hooks t errs true
  run-once (add hook ∷ ops) hooks t errs false = run-once ops (hooks ++ hook ∷ []) t errs false
  run-once (set_timeout u ∷ ops) hooks t errs s = run-once ops hooks u errs s
  run-once (begin ∷ ops) hooks t errs s = run-once ops hooks t errs true
  run-once (shut env ∷ ops) hooks t errs s = run-once ops hooks t errs true

  run-begun :
      (ops : List (Op F E)) (hooks : List (ShutdownHook F)) (t : ℤ) (errs : List (HookError E))
      → (run ops (manager hooks t errs true false)).1
        ≡ expected (first_shutdown ops) (sort less hooks)
  unfolding run first_shutdown expected
  run-begun [] hooks t errs = refl
  run-begun (add hook ∷ ops) hooks t errs = run-begun ops hooks t errs
  run-begun (set_timeout u ∷ ops) hooks t errs = run-begun ops hooks u errs
  run-begun (begin ∷ ops) hooks t errs = run-begun ops hooks t errs
  run-begun (shut env ∷ ops) hooks t errs =
      let r = run_hooks env t 0 (sort less hooks) in
      ap (◌++◌ r.0) (run-once ops hooks t r.1 true).0
      ∙ append-nil r.0
      ∙ run_hooks-up_to env t 0 (sort less hooks)

  run-open :
      (ops : List (Op F E)) (hooks : List (ShutdownHook F)) (t : ℤ) (errs : List (HookError E))
      → (run ops (manager hooks t errs false false)).1
        ≡ expected (first_shutdown ops) (sort less (hooks ++ taken ops))
  unfolding run first_shutdown expected taken
  run-open [] hooks t errs = refl
  run-open (add hook ∷ ops) hooks t errs =
      run-open ops (hooks ++ hook ∷ []) t errs
      ∙ ap (λ hs. expected (first_shutdown ops) (sort less hs))
          (append_assoc hooks (hook ∷ []) (taken ops))
  run-open (set_timeout u ∷ ops) hooks t errs = run-open ops hooks u errs
  run-open (begin ∷ ops) hooks t errs =
      run-begun ops hooks t errs
      ∙ ap (λ hs. expected (first_shutdown ops) (sort less hs)) (sym (append-nil hooks))
  run-open (shut env ∷ ops) hooks t errs =
      run-begun (shut env ∷ ops) hooks t errs
      ∙ ap (λ hs. expected (some env) (sort less hs)) (sym (append-nil hooks))

  -- However the calls interleave, a new manager runs each hook at most once: all in all it runs, in the
  -- order of the sort, the hooks registered before any shutdown began, up to the first after which the
  -- context of the first shutdown is done. Without a shutdown it runs none.
  pub new_shutdown_manager-run :
      (t : ℤ) (ops : List (Op F E))
      → (run ops (new_shutdown_manager t)).1 ≡ expected (first_shutdown ops) (sort less (taken ops))
  unfolding new_shutdown_manager
  new_shutdown_manager-run t ops = run-open ops [] _ []

  AfterOnce : List (Op F E) → ShutdownManager F E → Type 0
  AfterOnce ops m =
      ((run ops m).1 ≡ [])
      × ((run ops m).0.shutdown_err ≡ m.shutdown_err)
      × ((run ops m).0.shutdown_once ≡ true)

  run-AfterOnce :
      (ops : List (Op F E)) (m : ShutdownManager F E) → m.shutdown_once ≡ true → AfterOnce ops m
  unfolding AfterOnce
  run-AfterOnce ops m e =
      subst (λ b. AfterOnce ops (record m { shutdown_once = b })) (sym e)
        (run-once ops m.hooks m.global_timeout m.shutdown_err m.shutdown_started)

  shutdown-once :
      (env : Env F E) (m : ShutdownManager F E)
      → m.shutdown_once ≡ true
      → ((shutdown sort env m).1 ≡ []) × ((shutdown sort env m).2 ≡ m.shutdown_err)
  unfolding shutdown
  shutdown-once env m e =
      subst
        (λ b.
          ((shutdown sort env (record m { shutdown_once = b })).1 ≡ [])
          × ((shutdown sort env (record m { shutdown_once = b })).2 ≡ m.shutdown_err))
        (sym e) (refl, refl)

  shutdown-sets_once :
      (env : Env F E) (m : ShutdownManager F E) → (shutdown sort env m).0.shutdown_once ≡ true
  unfolding shutdown
  shutdown-sets_once env m = ground arith

  returned :
      (env : Env F E) (m : ShutdownManager F E)
      → (shutdown sort env m).0.shutdown_err ≡ (shutdown sort env m).2
  unfolding shutdown
  returned env m = refl

  -- A shutdown after a shutdown, whatever came between, runs no hook and returns the same errors.
  pub shutdown-again :
      (m : ShutdownManager F E) (env env' : Env F E) (ops : List (Op F E))
      → ((shutdown sort env' (run ops (shutdown sort env m).0).0).1 ≡ [])
        × ((shutdown sort env' (run ops (shutdown sort env m).0).0).2 ≡ (shutdown sort env m).2)
  unfolding AfterOnce
  shutdown-again m env env' ops =
      let m₁ = (shutdown sort env m).0 in
      let kept = run-AfterOnce ops m₁ (shutdown-sets_once env m) in
      let again = shutdown-once env' (run ops m₁).0 kept.2 in
      (again.0, again.1 ∙ kept.1 ∙ returned env m)
