-- ===== src/Tests/Frameworks.antt =====
-- framework.go at concrete inputs: components are numbers, and errors too.
use quickgo.Prelude.{
  ℕ, ◌+◌, ◌≡◌, refl, true, false, Option, none, some, List, [], ◌∷◌, if◌then◌else◌,
}
use quickgo.Prelude.Dict.{lookup, insert, ◌is◌}
use quickgo.Framework.{Target, part, component, Env, FrameworkConfig, new_framework}
use quickgo.Framework.Steps.{open_part, entries, close_components, close_parts}
use quickgo.Framework.Operations.{init, register_component, start}
use quickgo.Framework.Balance.{openings, closings, held}
use quickgo.Framework.Validity.{IsValid}
use quickgo.Framework.Runs.{
  Operation, operate, do_register, do_init, do_start, run, run-openings, run-IsValid,
}

abbrev config : FrameworkConfig
config = record {
  tracing = none;
  logger = none;
  metrics = false;
  grpc_server = false;
  grpc_client = false;
  http_server = some true;
  gorm = false;
  mongodb = false;
  redis = false;
}

abbrev all_well : Env ℕ
all_well = record {
  on_open = λ t. none;
  on_start = λ t. none;
  on_close = λ t. none;
  is_enabled = λ n. true;
}

-- the component "b" does not open
abbrev on_open_b : Target → Option ℕ
on_open_b (part p) = none
on_open_b (component n) = if n is "b" then some 5 else none

abbrev b_fails : Env ℕ
b_fails = record all_well { on_open = on_open_b }

abbrev operations : List (Operation ℕ ℕ)
operations =
    do_register (some ("a", 1))
    ∷ do_register (some ("b", 2))
    ∷ do_init b_fails
    ∷ do_init all_well
    ∷ do_start all_well
    ∷ []

run-openings_example :
    let (f, calls) = run operations (new_framework config) in
    openings (component "a") calls ≡ closings (component "a") calls + held (component "a") f
run-openings_example = run-openings config operations (component "a")

run-IsValid_example : IsValid (run operations (new_framework config)).0
run-IsValid_example = run-IsValid config operations

-- The first `Init` opens "a" and closes it again, the second one opens it to stay.
operations_hold :
    let (f, calls) = run operations (new_framework config) in
    (openings (component "a") calls ≡ 2) × (held (component "a") f ≡ 1) × (f.started ≡ true)
unfolding run operate new_framework register_component init start insert lookup open_part entries
    close_components close_parts
operations_hold = (refl, refl, refl)
