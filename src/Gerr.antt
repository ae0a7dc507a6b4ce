-- ===== src/Gerr.antt =====
-- gerr/error.go: errors with a code, a type, a cause and metadata. `none` is a nil `*GErr`, and a nil
-- `error` where the source takes one.
pub mod Chains
pub mod Constructors
pub mod Parsing
pub mod Retrying
pub mod Metadata
use Prim.Native.String.{String, ◌++◌}
use quickgo.Prelude.{Bool, true, false, Option, none, some, List, [], ◌∷◌}
use quickgo.Prelude.Int.{ℤ, pos}
use quickgo.Prelude.Dict.{lookup, insert}
use quickgo.Gerr.Chains.{
  ErrorType, type_unknown, type_business, type_validation, type_not_found, type_unauthorized,
  type_forbidden, type_internal, type_network, type_timeout, type_database, type_third_party,
  other_type, Error, gerr, nil_gerr, canceled, deadline_exceeded, plain, wrapping, joined, custom,
  Cause, no_cause, caused_by, Errors, GErr, as_gerr,
}

-- `String`, of an `ErrorType`
unfoldable pub type_string : ErrorType → String
type_string type_business = "BUSINESS"
type_string type_validation = "VALIDATION"
type_string type_not_found = "NOT_FOUND"
type_string type_unauthorized = "UNAUTHORIZED"
type_string type_forbidden = "FORBIDDEN"
type_string type_internal = "INTERNAL"
type_string type_network = "NETWORK"
type_string type_timeout = "TIMEOUT"
type_string type_database = "DATABASE"
type_string type_third_party = "THIRD_PARTY"
type_string type_unknown = "UNKNOWN"
type_string other_type = "UNKNOWN"

-- `Error`. `format` is %d of an int32. The text of a nil `*GErr` is what %v prints for it.
unfoldable mutual
  pub error_text : (ℤ → String) → Error → String
  error_text format (gerr code msg type cause stack metadata) =
      "code: "
      ++ format code
      ++ ", type: "
      ++ type_string type
      ++ ", msg: "
      ++ msg
      ++ cause_text format cause
  error_text format nil_gerr = "<nil>"
  error_text format canceled = "context canceled"
  error_text format deadline_exceeded = "context deadline exceeded"
  error_text format (plain text) = text
  error_text format (wrapping text err) = text
  error_text format (joined text errs) = text
  error_text format (custom text answer cause) = text

  pub cause_text : (ℤ → String) → Cause → String
  cause_text format no_cause = ""
  cause_text format (caused_by err) = ", cause: " ++ error_text format err

-- `GetMetadataValue`: the zero text for a key that is not there
unfoldable pub value_or_empty : Option String → String
value_or_empty none = ""
value_or_empty (some value) = value

unfoldable pub metadata_value : String → Option (List (String × String)) → String
unfolding value_or_empty
metadata_value key none = ""
metadata_value key (some metadata) = value_or_empty (lookup key metadata)

unfoldable pub get_metadata_value : GErr → String → String
unfolding metadata_value
get_metadata_value e key = metadata_value key e.metadata

unfoldable pub unwrap : GErr → Cause
unwrap e = e.cause

-- `clone`, whose copies of the stack and of the metadata are equal to these
unfoldable pub clone : GErr → GErr
clone e = e

unfoldable pub metadata_with :
    String → String → Option (List (String × String)) → List (String × String)
metadata_with key value none = insert key value []
metadata_with key value (some metadata) = insert key value metadata

unfoldable pub with_metadata : String → String → GErr → GErr
unfolding clone metadata_with
with_metadata key value e =
    let cloned = clone e in
    record cloned { metadata = some (metadata_with key value cloned.metadata) }

unfoldable pub with_cause : Cause → GErr → GErr
unfolding clone
with_cause cause e = record (clone e) { cause = cause }

unfoldable pub with_type : ErrorType → GErr → GErr
unfolding clone
with_type t e = record (clone e) { type = t }

-- `IsRetryable`, the method
unfoldable pub is_retryable_type : ErrorType → Bool
is_retryable_type type_network = true
is_retryable_type type_timeout = true
is_retryable_type type_third_party = true
is_retryable_type _ = false

-- `Parse`
unfoldable pub parse_found : (ℤ → String) → List String → Error → Option (Option GErr) → Option GErr
parse_found format stack err (some found) = found
parse_found format stack err none = some (record {
  code = pos 0;
  msg = error_text format err;
  type = type_unknown;
  cause = caused_by err;
  stack = stack;
  metadata = none;
})

-- `err.(*GErr)`
unfoldable pub assert_gerr : Error → Option (Option GErr)
assert_gerr (gerr code msg type cause stack metadata) = some (
    some (record {
      code = code;
      msg = msg;
      type = type;
      cause = cause;
      stack = stack;
      metadata = metadata;
    }))
assert_gerr nil_gerr = some none
assert_gerr _ = none

unfoldable pub parse_asserted :
    (ℤ → String) → List String → Error → Option (Option GErr) → Option GErr
unfolding parse_found
parse_asserted format stack err (some e) = e
parse_asserted format stack err none = parse_found format stack err (as_gerr err)

unfoldable pub parse : (ℤ → String) → List String → Option Error → Option GErr
unfolding assert_gerr parse_asserted
parse format stack none = none
parse format stack (some err) = parse_asserted format stack err (assert_gerr err)

unfoldable pub is_some_gerr : Option (Option GErr) → Bool
is_some_gerr none = false
is_some_gerr (some found) = true

unfoldable pub is_gerr : Option Error → Bool
unfolding is_some_gerr
is_gerr none = false
is_gerr (some err) = is_some_gerr (as_gerr err)

unfoldable pub code_of : Option GErr → ℤ
code_of none = pos 0
code_of (some e) = e.code

unfoldable pub type_of : Option GErr → ErrorType
type_of none = type_unknown
type_of (some e) = e.type

unfoldable pub retryable_of : Option GErr → Bool
unfolding is_retryable_type
retryable_of none = false
retryable_of (some e) = is_retryable_type e.type

module _ (format : ℤ → String) (stack : List String) where
  unfoldable pub get_code : Option Error → ℤ
  unfolding parse code_of
  get_code err = code_of (parse format stack err)

  unfoldable pub get_type : Option Error → ErrorType
  unfolding parse type_of
  get_type err = type_of (parse format stack err)

  -- `IsRetryable`, the function
  unfoldable pub is_retryable : Option Error → Bool
  unfolding parse retryable_of
  is_retryable err = retryable_of (parse format stack err)
