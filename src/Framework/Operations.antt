-- ===== src/Framework/Operations.antt =====
-- framework.go: `RegisterComponent`, `Init`, `Start`, `Stop` and `stop`. Each holds `lifecycleMu` from
-- its start to its end, but for `RegisterComponent`, which holds `mu`.
use quickgo.Prelude.{
  Bool, true, false, not, ◌||◌, Option, none, some, List, [], ◌∷◌, ◌++◌, String, if◌then◌else◌,
  reverse,
}
use quickgo.Prelude.Dict.{lookup, insert, ◌is◌, is_mem}
use quickgo.Framework.{
  Part, grpc_server, grpc_client, http_server, part, component, Call, started, start_failed,
  health_checks_started, Failure, already_initialized, not_initialized, already_started,
  component_is_nil, component_name_is_empty, component_already_registered, register_too_late,
  failed_start, Env, Framework, first_parts, other_parts, stop_order, Outcome, and_then,
}
use quickgo.Framework.Steps.{entries, init_parts, init_components, close_components, close_parts}

-- the names of a list that are in a set, in the list's order
abbrev pub keep : List String → List String → List String
keep set [] = []
keep set (n ∷ ns) = if is_mem n set then n ∷ keep set ns else keep set ns

abbrev pub is_nil : {E : Type 0} → List (Failure E) → Bool
is_nil [] = true
is_nil (e ∷ es) = false

module _ {E : Type 0} where
  -- the steps of `Start`: the calls, and the failure at which it breaks off
  unfoldable pub start_parts : Env E → List Part → (Part → Bool) → List Call × List (Failure E)
  start_parts env [] parts = ([], [])
  start_parts env (p ∷ ps) parts = elim (parts p) [
    | false ↦ start_parts env ps parts
    | true ↦ elim (env.on_start (part p)) [
      | some e ↦ (start_failed (part p) ∷ [], failed_start (part p) e ∷ [])
      | none ↦ let (calls, errs) = start_parts env ps parts in (started (part p) ∷ calls, errs)
    ]
  ]

  unfoldable pub start_components : Env E → List String → List Call × List (Failure E)
  start_components env [] = ([], [])
  start_components env (n ∷ ns) = elim (env.is_enabled n) [
    | false ↦ start_components env ns
    | true ↦ elim (env.on_start (component n)) [
      | some e ↦ (start_failed (component n) ∷ [], failed_start (component n) e ∷ [])
      | none ↦ let (calls, errs) = start_components env ns in (started (component n) ∷ calls, errs)
    ]
  ]

module _ {E C : Type 0} where
  -- `stop`. The flag `stopping` is set while it runs, and reset at its end.
  unfoldable pub stop_parts : Env E → Framework C → Outcome E C
  stop_parts env f =
      let names = entries f.components f.initialized_order in
      let (failed, calls, errs) = close_components env (reverse names) in
      let (parts, more, errs') = close_parts env stop_order f.parts in
      let f' = record f {
        parts = parts;
        started = false;
        initializing = false;
        stopping = false;
      } in
      (
        if is_nil (errs ++ errs')
            then record f' {
              initialized = false;
              initialized_order = [];
              metrics = false;
              stopped = true;
            }
            else record f' {
              initialized = true;
              initialized_order = keep failed names;
              stopped = false;
            },
        calls ++ more,
        errs ++ errs',
      )

  unfoldable pub stop : Env E → Framework C → Outcome E C
  unfolding stop_parts
  stop env f =
      if f.stopped || not (f.initializing || f.initialized || f.started)
      then (f, [], [])
      else stop_parts env f

  -- `Stop`: the same guards once more, under `lifecycleMu`
  unfoldable pub stop_framework : Env E → Framework C → Outcome E C
  unfolding stop
  stop_framework env f =
      if f.stopped
      then (f, [], [])
      else if not (f.initializing || f.initialized || f.started)
      then (f, [], [])
      else stop env f

  -- the end of `Init`: the deferred roll-back if a step failed, whose own failures are only logged
  unfoldable pub finish_init : Env E → Outcome E C → Outcome E C
  unfolding stop
  finish_init env (f, calls, []) =
      (record f { initialized = true; initializing = false }, calls, [])
  finish_init env (f, calls, e ∷ errs) =
      let (f', more, ignored) = stop env f in
      (record f' { initializing = false }, calls ++ more, e ∷ errs)

  -- the steps of `Init`, each only if those before it did not fail
  unfoldable pub init_all : Env E → Framework C → Outcome E C
  unfolding init_parts init_components
  init_all env f =
      and_then
        (and_then (init_parts env first_parts f) (λ f₁.
          init_parts env other_parts (record f₁ { metrics = f₁.config.metrics || f₁.metrics })))
        (λ f₂. init_components env (entries f₂.components f₂.component_order) f₂)

  unfoldable pub init : Env E → Framework C → Outcome E C
  unfolding finish_init init_all
  init env f =
      if f.initialized
      then (f, [], already_initialized ∷ [])
      else finish_init env (init_all env (record f { stopped = false; initializing = true }))

  -- the roll-back of `Start`: its failures are joined to the one that broke the start off
  unfoldable pub start_failed_stop :
      Env E → Framework C → List Call → List (Failure E) → Outcome E C
  unfolding stop
  start_failed_stop env f calls errs =
      let (f', more, errs') = stop env f in (f', calls ++ more, errs ++ errs')

  -- the steps of `Start` once its guards have passed
  unfoldable pub start_all : Env E → Framework C → List Call × List (Failure E)
  unfolding start_parts start_components
  start_all env f =
      let (calls, errs) = start_parts env (grpc_server ∷ http_server ∷ []) f.parts in
      let (more, errs') = start_components env (entries f.components f.initialized_order) in
      if is_nil errs then (calls ++ more, errs') else (calls, errs)

  unfoldable pub start : Env E → Framework C → Outcome E C
  unfolding start_all start_failed_stop
  start env f =
      if not f.initialized
      then (f, [], not_initialized ∷ [])
      else if f.started
      then (f, [], already_started ∷ [])
      else (let (calls, errs) = start_all env f in
          if is_nil errs
          then (
            record f { started = true },
            calls ++ (if f.parts grpc_client then health_checks_started ∷ [] else []),
            [],
          )
          else start_failed_stop env f calls errs)

  -- `RegisterComponent` past the test of the name, by what the map has under it
  unfoldable pub add_component :
      Option C → String → C → Framework C → Framework C × Option (Failure E)
  add_component (some c') name c f = (f, some component_already_registered)
  add_component none name c f =
      if f.initializing || f.initialized || f.started || f.stopping
      then (f, some register_too_late)
      else (
        record f {
          components = insert name c f.components;
          component_order = f.component_order ++ name ∷ [];
        },
        none,
      )

  -- `RegisterComponent`, of nil or of a component with its name; its failure, if any
  unfoldable pub register_component :
      Option (String × C) → Framework C → Framework C × Option (Failure E)
  unfolding add_component
  register_component none f = (f, some component_is_nil)
  register_component (some (name, c)) f =
      if name is ""
      then (f, some component_name_is_empty)
      else add_component (lookup name f.components) name c f
