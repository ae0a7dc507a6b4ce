-- ===== src/Gerr/Chains.antt =====
-- gerr/error.go: the type `GErr` among Go's error values, and what the standard library's `errors`
-- makes of a chain.
use Prim.Native.String.{String}
use quickgo.Prelude.{Bool, Option, none, some, List}
use quickgo.Prelude.Int.{ℤ}

-- The constants by their names; `other_type` is any other value of the int.
pub data ErrorType : Type 0 where
  type_unknown type_business type_validation type_not_found type_unauthorized type_forbidden :
      ErrorType
  type_internal type_network type_timeout type_database type_third_party other_type : ErrorType

-- A value of the interface `error` that is not nil. `gerr` is a `*GErr` with its fields (code, message,
-- type, cause, stack, metadata), and `nil_gerr` one that is nil itself. The others are the context's two
-- errors, errors.New, fmt.Errorf with one %w and its text, errors.Join with its text, and `custom`, an error
-- of any other type that has a method `IsRetryable`: its text, what the method answers, and what its `Unwrap`
-- gives.
mutual
  pub data Error : Type 0 where
    gerr : ℤ → String → ErrorType → Cause → List String → Option (List (String × String)) → Error
    nil_gerr canceled deadline_exceeded : Error
    plain : String → Error
    wrapping : String → Error → Error
    joined : String → Errors → Error
    custom : String → Bool → Cause → Error

  pub data Cause : Type 0 where
    no_cause : Cause
    caused_by : Error → Cause

  pub data Errors : Type 0 where
    nil : Errors
    cons : Error → Errors → Errors

pub record GErr : Type 0 where
  pub code : ℤ
  pub msg : String
  pub type : ErrorType
  pub cause : Cause
  pub stack : List String
  pub metadata : Option (List (String × String))

-- A `*GErr` that is not nil, as an `error`.
unfoldable pub to_error : GErr → Error
to_error e = gerr e.code e.msg e.type e.cause e.stack e.metadata

-- The first of two answers that is there
unfoldable pub or_else : {A : Type 0} → Option A → Option A → Option A
or_else none later = later
or_else (some found) later = some found

-- `errors.As` with a `*GErr` for its target: the first one that the chain has, in depth-first order. The
-- inner `none` is a nil pointer.
unfoldable mutual
  pub as_gerr : Error → Option (Option GErr)
  as_gerr (gerr code msg type cause stack metadata) = some (
      some (record {
        code = code;
        msg = msg;
        type = type;
        cause = cause;
        stack = stack;
        metadata = metadata;
      }))
  as_gerr nil_gerr = some none
  as_gerr canceled = none
  as_gerr deadline_exceeded = none
  as_gerr (plain text) = none
  as_gerr (wrapping text err) = as_gerr err
  as_gerr (joined text errs) = as_gerr_of errs
  as_gerr (custom text answer cause) = as_gerr_cause cause

  pub as_gerr_cause : Cause → Option (Option GErr)
  as_gerr_cause no_cause = none
  as_gerr_cause (caused_by err) = as_gerr err

  pub as_gerr_of : Errors → Option (Option GErr)
  as_gerr_of nil = none
  as_gerr_of (cons err errs) = or_else (as_gerr err) (as_gerr_of errs)
