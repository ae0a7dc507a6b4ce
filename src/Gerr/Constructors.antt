-- ===== src/Gerr/Constructors.antt =====
-- gerr/error.go: the constructors. Each takes the stack that `captureStack` would give.
use Prim.Native.String.{String}
use quickgo.Prelude.{Option, none, some, List}
use quickgo.Prelude.Int.{ℤ}
use quickgo.Gerr.Chains.{
  ErrorType, type_business, type_validation, type_not_found, type_unauthorized, type_forbidden,
  type_internal, type_network, type_timeout, type_database, type_third_party, Error, no_cause,
  caused_by, GErr,
}

unfoldable pub new : List String → ℤ → ErrorType → String → GErr
new stack code type msg = record {
  code = code;
  msg = msg;
  type = type;
  cause = no_cause;
  stack = stack;
  metadata = none;
}

unfoldable pub new_gerr : List String → ℤ → String → GErr
unfolding new
new_gerr stack code msg = new stack code type_business msg

-- `Newf` and `Wrapf` make their message by fmt.Sprintf, which is `sprintf`, of a format and arguments.
unfoldable pub newf :
    {A : Type 0} → (String → List A → String) → List String → ℤ → ErrorType → String → List A → GErr
unfolding new
newf sprintf stack code type format args = new stack code type (sprintf format args)

unfoldable pub new_business : List String → ℤ → String → GErr
unfolding new
new_business stack code msg = new stack code type_business msg

unfoldable pub new_validation : List String → ℤ → String → GErr
unfolding new
new_validation stack code msg = new stack code type_validation msg

unfoldable pub new_not_found : List String → ℤ → String → GErr
unfolding new
new_not_found stack code msg = new stack code type_not_found msg

unfoldable pub new_unauthorized : List String → ℤ → String → GErr
unfolding new
new_unauthorized stack code msg = new stack code type_unauthorized msg

unfoldable pub new_forbidden : List String → ℤ → String → GErr
unfolding new
new_forbidden stack code msg = new stack code type_forbidden msg

unfoldable pub new_internal : List String → ℤ → String → GErr
unfolding new
new_internal stack code msg = new stack code type_internal msg

unfoldable pub new_network : List String → ℤ → String → GErr
unfolding new
new_network stack code msg = new stack code type_network msg

unfoldable pub new_timeout : List String → ℤ → String → GErr
unfolding new
new_timeout stack code msg = new stack code type_timeout msg

unfoldable pub new_database : List String → ℤ → String → GErr
unfolding new
new_database stack code msg = new stack code type_database msg

unfoldable pub new_third_party : List String → ℤ → String → GErr
unfolding new
new_third_party stack code msg = new stack code type_third_party msg

unfoldable pub wrap : List String → Option Error → ℤ → String → Option GErr
wrap stack none code msg = none
wrap stack (some err) code msg = some (record {
  code = code;
  msg = msg;
  type = type_internal;
  cause = caused_by err;
  stack = stack;
  metadata = none;
})

unfoldable pub wrapf :
    {A : Type 0}
    → (String → List A → String)
    → List String
    → Option Error
    → ℤ
    → String
    → List A
    → Option GErr
unfolding wrap
wrapf sprintf stack err code format args = wrap stack err code (sprintf format args)
