-- ===== src/Framework/Steps.antt =====
-- framework.go: the loops of `Init` and `stop` over the parts and the components.
use quickgo.Prelude.{Bool, true, false, none, some, List, [], ◌∷◌, ◌++◌, String, if◌then◌else◌}
use quickgo.Prelude.Dict.{lookup}
use quickgo.Framework.{
  Part, part, component, Call, opened, opened_disabled, open_failed, closed, close_failed, Failure,
  failed_open, failed_close, Env, FrameworkConfig, Framework, wanted, lasting, can_fail, set_part,
  Outcome, after,
}

-- `componentsSnapshot` and `initializedComponentEntriesLocked`: the names of a list that are
-- registered.
unfoldable pub entries : {C : Type 0} → List (String × C) → List String → List String
entries components [] = []
entries components (n ∷ ns) = elim (lookup n components) [
  | none ↦ entries components ns
  | some c ↦ n ∷ entries components ns
]

-- What comes of one of the steps 1, 2 and 4 to 9 of `Init`.
pub data Opening (E : Type 0) : Type 0 where
  not_wanted : Opening E
  refused : E → Opening E
  lasting_part : Opening E
  passing_part : Opening E

unfoldable pub open_part : {E : Type 0} → Env E → FrameworkConfig → Part → Opening E
open_part env c p = elim (wanted c p) [
  | false ↦ not_wanted
  | true ↦ elim (if can_fail c p then env.on_open (part p) else none) [
    | some e ↦ refused e
    | none ↦ if lasting c p then lasting_part else passing_part
  ]
]

module _ {E C : Type 0} where
  -- steps 1, 2 and 4 to 9 of `Init`
  unfoldable pub init_parts : Env E → List Part → Framework C → Outcome E C
  init_parts env [] f = (f, [], [])
  init_parts env (p ∷ ps) f = elim (open_part env f.config p) [
    | not_wanted ↦ init_parts env ps f
    | refused e ↦ (f, open_failed (part p) ∷ [], failed_open (part p) e ∷ [])
    | lasting_part ↦
        after (opened (part p) ∷ [])
          (init_parts env ps (record f { parts = set_part p true f.parts }))
    | passing_part ↦ after (opened_disabled (part p) ∷ []) (init_parts env ps f)
  ]

  -- step 10 of `Init`
  unfoldable pub init_components : Env E → List String → Framework C → Outcome E C
  init_components env [] f = (f, [], [])
  init_components env (n ∷ ns) f = elim (env.is_enabled n) [
    | false ↦ init_components env ns f
    | true ↦ elim (env.on_open (component n)) [
      | some e ↦ (f, open_failed (component n) ∷ [], failed_open (component n) e ∷ [])
      | none ↦
          after (opened (component n) ∷ []) (
            init_components env ns (record f { initialized_order = f.initialized_order ++ n ∷ [] }))
    ]
  ]

module _ {E : Type 0} where
  -- the loop of `stop` over the components, last first: the names that failed, the calls, the failures
  unfoldable pub close_components : Env E → List String → List String × List Call × List (Failure E)
  close_components env [] = ([], [], [])
  close_components env (n ∷ ns) =
      let (failed, calls, errs) = close_components env ns in
      elim (env.on_close (component n)) [
        | none ↦ (failed, closed (component n) ∷ calls, errs)
        | some e ↦
            (n ∷ failed, close_failed (component n) ∷ calls, failed_close (component n) e ∷ errs)
      ]

  -- steps 2 to 5 of `stop`, tracing and logger: which parts are still there, the calls, the failures
  unfoldable pub close_parts :
      Env E → List Part → (Part → Bool) → (Part → Bool) × List Call × List (Failure E)
  close_parts env [] parts = (parts, [], [])
  close_parts env (p ∷ ps) parts = elim (parts p) [
    | false ↦ close_parts env ps parts
    | true ↦ elim (env.on_close (part p)) [
      | none ↦
          let (parts', calls, errs) = close_parts env ps (set_part p false parts) in
          (parts', closed (part p) ∷ calls, errs)
      | some e ↦
          let (parts', calls, errs) = close_parts env ps parts in
          (parts', close_failed (part p) ∷ calls, failed_close (part p) e ∷ errs)
    ]
  ]
