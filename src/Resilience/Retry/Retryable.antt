-- ===== src/Resilience/Retry/Retryable.antt =====
-- resilience/retry.go: `IsRetryableError`. `errors.As` looks for the first error of the chain with a method
-- `IsRetryable`, which a `*GErr` and a `custom` error have; the call of a nil `*GErr`'s panics: `none`.
use quickgo.Prelude.{Bool, true, false, not, ◌||◌, Option, none, some}
use quickgo.Gerr.Chains.{
  Error, gerr, nil_gerr, canceled, deadline_exceeded, plain, wrapping, joined, custom, Cause,
  no_cause, caused_by, Errors, nil, cons, GErr, or_else,
}
use quickgo.Gerr.{is_retryable_type}

-- `errors.Is` for the two errors of a context
unfoldable mutual
  pub is_context_error : Error → Bool
  is_context_error (gerr code msg type cause stack metadata) = is_context_cause cause
  is_context_error nil_gerr = false
  is_context_error canceled = true
  is_context_error deadline_exceeded = true
  is_context_error (plain text) = false
  is_context_error (wrapping text err) = is_context_error err
  is_context_error (joined text errs) = is_context_error_of errs
  is_context_error (custom text answer cause) = is_context_cause cause

  pub is_context_cause : Cause → Bool
  is_context_cause no_cause = false
  is_context_cause (caused_by err) = is_context_error err

  pub is_context_error_of : Errors → Bool
  is_context_error_of nil = false
  is_context_error_of (cons err errs) = is_context_error err || is_context_error_of errs

-- An error with the method `IsRetryable`: a `*GErr`, maybe nil, or another, with what it answers
pub data Retryable : Type 0 where
  a_gerr : Option GErr → Retryable
  answers : Bool → Retryable

-- `errors.As` with `interface{ IsRetryable() bool }` for its target
unfoldable mutual
  pub as_retryable : Error → Option Retryable
  as_retryable (gerr code msg type cause stack metadata) = some (
      a_gerr (
        some (record {
          code = code;
          msg = msg;
          type = type;
          cause = cause;
          stack = stack;
          metadata = metadata;
        })))
  as_retryable nil_gerr = some (a_gerr none)
  as_retryable canceled = none
  as_retryable deadline_exceeded = none
  as_retryable (plain text) = none
  as_retryable (wrapping text err) = as_retryable err
  as_retryable (joined text errs) = as_retryable_of errs
  as_retryable (custom text answer cause) = some (answers answer)

  pub as_retryable_of : Errors → Option Retryable
  as_retryable_of nil = none
  as_retryable_of (cons err errs) = or_else (as_retryable err) (as_retryable_of errs)

unfoldable pub retryable_found : Error → Option Retryable → Option Bool
unfolding is_retryable_type
retryable_found err (some (a_gerr (some e))) = some (is_retryable_type e.type)
retryable_found err (some (a_gerr none)) = none
retryable_found err (some (answers answer)) = some answer
retryable_found err none = some (not (is_context_error err))

unfoldable pub is_retryable_error : Option Error → Option Bool
unfolding retryable_found as_retryable
is_retryable_error none = some false
is_retryable_error (some err) = retryable_found err (as_retryable err)
