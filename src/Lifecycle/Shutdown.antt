-- ===== src/Lifecycle/Shutdown.antt =====
-- lifecycle/shutdown.go: the shutdown manager. `sort` is sort.Slice; what the hooks answer comes from an
-- environment, one for each shutdown.
pub mod Runs
use quickgo.Prelude.{
  ℕ, suc, Bool, true, false, Option, none, some, List, [], ◌∷◌, ◌++◌, String, if◌then◌else◌,
}
use quickgo.Prelude.Int.{ℤ, pos, ltb_ℤ}
use quickgo.Prelude.Int64.{leb_ℤ}

-- `F` is the type of the functions, nil excluded.
pub record ShutdownHook (F : Type 0) : Type 0 where
  pub name : String
  pub priority : ℤ
  pub func : Option F
  pub timeout : ℤ

-- The error of a hook: its name and what its function answered, or that it has none.
pub data HookError (E : Type 0) : Type 0 where
  func_is_nil : String → HookError E
  hook_failed : String → E → HookError E

-- What happens in one shutdown: the answer of a function under its timeout (a panic and the end of its
-- context are errors too), and whether the context of the shutdown is done after the n-th hook.
pub record Env (F E : Type 0) : Type 0 where
  pub answer : F → ℤ → Option E
  pub is_done : ℕ → Bool

pub record ShutdownManager (F E : Type 0) : Type 0 where
  pub hooks : List (ShutdownHook F)
  pub global_timeout : ℤ
  pub shutdown_err : List (HookError E)
  pub shutdown_started : Bool
  pub shutdown_once : Bool

module _ {F : Type 0} where
  -- The key that `sort.Slice` gets.
  abbrev pub less : ShutdownHook F → ShutdownHook F → Bool
  less a b = ltb_ℤ a.priority b.priority

unfoldable pub fail_with : {E : Type 0} → String → Option E → List (HookError E)
fail_with name none = []
fail_with name (some e) = hook_failed name e ∷ []

module _ {F E : Type 0} where
  unfoldable pub new_shutdown_manager : ℤ → ShutdownManager F E
  new_shutdown_manager global_timeout = record {
    hooks = [];
    global_timeout = if leb_ℤ global_timeout (pos 0) then pos 30000000000 else global_timeout;
    shutdown_err = [];
    shutdown_started = false;
    shutdown_once = false;
  }

  unfoldable pub register : ShutdownHook F → ShutdownManager F E → ShutdownManager F E
  register hook m = if m.shutdown_started then m else record m { hooks = m.hooks ++ hook ∷ [] }

  unfoldable pub register_func_with_timeout :
      String → ℤ → ℤ → F → ShutdownManager F E → ShutdownManager F E
  unfolding register
  register_func_with_timeout name priority timeout f m =
      register (record { name = name; priority = priority; func = some f; timeout = timeout }) m

  unfoldable pub register_func : String → ℤ → F → ShutdownManager F E → ShutdownManager F E
  unfolding register
  register_func name priority f m =
      register (record { name = name; priority = priority; func = some f; timeout = pos 0 }) m

  unfoldable pub set_global_timeout : ℤ → ShutdownManager F E → ShutdownManager F E
  set_global_timeout timeout m = record m { global_timeout = timeout }

  -- `runShutdownHook`, its error wrapped
  unfoldable pub run_shutdown_hook : Env F E → ℤ → String → Option F → List (HookError E)
  unfolding fail_with
  run_shutdown_hook env timeout name none = func_is_nil name ∷ []
  run_shutdown_hook env timeout name (some f) = fail_with name (env.answer f timeout)

  -- The loop over the sorted hooks from the n-th on: the hooks that are run, and their errors.
  unfoldable pub run_hooks :
      Env F E → ℤ → ℕ → List (ShutdownHook F) → List (ShutdownHook F) × List (HookError E)
  unfolding run_shutdown_hook
  run_hooks env global_timeout n [] = ([], [])
  run_hooks env global_timeout n (hook ∷ hooks) =
      let timeout = if leb_ℤ hook.timeout (pos 0) then global_timeout else hook.timeout in
      let errs = run_shutdown_hook env timeout hook.name hook.func in
      let (ran, more) = run_hooks env global_timeout (suc n) hooks in
      if env.is_done n then (hook ∷ [], errs) else (hook ∷ ran, errs ++ more)

  module _
      (sort : (ShutdownHook F → ShutdownHook F → Bool)
        → List (ShutdownHook F)
        → List (ShutdownHook F)) where
    -- The body of `Shutdown`, at most once: the hooks that are run.
    unfoldable pub shutdown_body :
        Env F E → ShutdownManager F E → ShutdownManager F E × List (ShutdownHook F)
    unfolding run_hooks
    shutdown_body env m =
        if m.shutdown_once
        then (m, [])
        else (let (ran, errs) = run_hooks env m.global_timeout 0 (sort less m.hooks) in
            (record m { shutdown_err = errs; shutdown_once = true }, ran))

    -- `Shutdown`: the manager, the hooks that this call runs, and what it returns.
    unfoldable pub shutdown :
        Env F E
        → ShutdownManager F E
        → ShutdownManager F E × List (ShutdownHook F) × List (HookError E)
    unfolding shutdown_body
    shutdown env m =
        let (m', ran) = shutdown_body env (record m { shutdown_started = true }) in
        (m', ran, m'.shutdown_err)
