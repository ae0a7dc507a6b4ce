-- ===== src/Framework.antt =====
-- framework.go: the framework that opens, starts and closes the parts of an application and the
-- components that are registered with it. What a part or component answers to a call is given by an
-- environment, afresh for each operation; an operation returns the new state, the calls that it made,
-- in order, and its error as the list of failures that it joins (`[]` is nil).
pub mod Steps
pub mod Operations
pub mod Balance
pub mod Validity
pub mod Stopping
pub mod Opening
pub mod Initializing
pub mod Lifecycle
pub mod Starting
pub mod Registering
pub mod Runs
use quickgo.Prelude.{
  Bool, true, false, Option, none, some, List, [], ◌∷◌, ◌++◌, String, if◌then◌else◌,
}

pub data Part : Type 0 where
  tracing logger grpc_server grpc_client http_server gorm mongodb redis : Part

abbrev pub same_part : Part → Part → Bool
same_part tracing tracing = true
same_part logger logger = true
same_part grpc_server grpc_server = true
same_part grpc_client grpc_client = true
same_part http_server http_server = true
same_part gorm gorm = true
same_part mongodb mongodb = true
same_part redis redis = true
same_part _ _ = false

pub data Target : Type 0 where
  part : Part → Target
  component : String → Target

-- A call to a part or component, and whether it succeeded. `opened_disabled` is the initialisation of
-- tracing that is switched off, which leaves nothing to close.
pub data Call : Type 0 where
  opened opened_disabled open_failed : Target → Call
  started start_failed : Target → Call
  closed close_failed : Target → Call
  health_checks_started : Call

pub data Failure (E : Type 0) : Type 0 where
  already_initialized not_initialized already_started : Failure E
  component_is_nil component_name_is_empty component_already_registered register_too_late :
      Failure E
  failed_open failed_start failed_close : Target → E → Failure E

pub record Env (E : Type 0) : Type 0 where
  pub on_open : Target → Option E
  pub on_start : Target → Option E
  pub on_close : Target → Option E
  pub is_enabled : String → Bool

-- Which options were given. `some b` is a configuration whose field `Enabled` is `b`.
pub record FrameworkConfig : Type 0 where
  pub tracing : Option Bool
  pub logger : Option Bool
  pub metrics : Bool
  pub grpc_server : Bool
  pub grpc_client : Bool
  pub http_server : Option Bool
  pub gorm : Bool
  pub mongodb : Bool
  pub redis : Bool

pub record Framework (C : Type 0) : Type 0 where
  pub config : FrameworkConfig
  pub parts : Part → Bool
  pub metrics : Bool
  pub components : List (String × C)
  pub component_order : List String
  pub initialized_order : List String
  pub initializing : Bool
  pub stopping : Bool
  pub initialized : Bool
  pub started : Bool
  pub stopped : Bool

-- `NewFramework`: the logger's configuration is filled in if there is none.
unfoldable pub new_framework : {C : Type 0} → FrameworkConfig → Framework C
new_framework config = record {
  config = record config { logger = elim config.logger [ none ↦ some true | some b ↦ some b ] };
  parts = λ p. false;
  metrics = false;
  components = [];
  component_order = [];
  initialized_order = [];
  initializing = false;
  stopping = false;
  initialized = false;
  started = false;
  stopped = false;
}

abbrev is_given : Option Bool → Bool
is_given none = false
is_given (some b) = true

abbrev is_on : Option Bool → Bool
is_on none = false
is_on (some b) = b

-- Does `Init` come to open this part?
abbrev pub wanted : FrameworkConfig → Part → Bool
wanted c tracing = is_given c.tracing
wanted c logger = true
wanted c grpc_server = c.grpc_server
wanted c grpc_client = c.grpc_client
wanted c http_server = is_on c.http_server
wanted c gorm = c.gorm
wanted c mongodb = c.mongodb
wanted c redis = c.redis

-- Does opening it leave something to close?
abbrev pub lasting : FrameworkConfig → Part → Bool
lasting c tracing = is_on c.tracing
lasting c _ = true

-- A logger that is disabled is replaced by a silent one, which cannot fail.
abbrev pub can_fail : FrameworkConfig → Part → Bool
can_fail c logger = is_on c.logger
can_fail c _ = true

abbrev pub set_part : Part → Bool → (Part → Bool) → Part → Bool
set_part p b parts q = if same_part p q then b else parts q

-- the parts that `Init` opens before the metrics, and those after them
abbrev pub first_parts : List Part
first_parts = tracing ∷ logger ∷ []

abbrev pub other_parts : List Part
other_parts = grpc_server ∷ grpc_client ∷ http_server ∷ gorm ∷ mongodb ∷ redis ∷ []

abbrev pub stop_order : List Part
stop_order =
    http_server ∷ grpc_server ∷ grpc_client ∷ redis ∷ mongodb ∷ gorm ∷ tracing ∷ logger ∷ []

-- What an operation comes to: the new state, its calls and its failures.
abbrev pub Outcome : Type 0 → Type 0 → Type 0
Outcome E C = Framework C × List Call × List (Failure E)

abbrev pub after : {E C : Type 0} → List Call → Outcome E C → Outcome E C
after calls (f, more, errs) = (f, calls ++ more, errs)

-- the next step, if none has failed so far
abbrev pub and_then : {E C : Type 0} → Outcome E C → (Framework C → Outcome E C) → Outcome E C
and_then (f, calls, []) k = after calls (k f)
and_then (f, calls, e ∷ errs) k = (f, calls, e ∷ errs)
