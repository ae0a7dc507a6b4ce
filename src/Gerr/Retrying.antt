-- ===== src/Gerr/Retrying.antt =====
-- gerr/error.go and resilience/retry.go: the two answers to whether an error may be retried.
use Prim.Native.String.{String}
use quickgo.Gerr.Parsing.{
  leaves, leaves_cause, leaves_of, first, first-append, parsed, parse-parsed, wrap_all,
  parse-wrap_all,
}
use quickgo.Prelude.{
  subst, ◌≡◌, refl, ap, sym, ◌∙◌, Bool, false, not, Option, none, some, List, [], ◌∷◌, ◌++◌,
}
use quickgo.Prelude.Int.{ℤ}
use quickgo.Gerr.Chains.{
  type_internal, Error, gerr, nil_gerr, canceled, deadline_exceeded, plain, wrapping, joined,
  custom, Cause, no_cause, caused_by, Errors, nil, cons, GErr, to_error, or_else,
}
use quickgo.Gerr.Constructors.{wrap}
use quickgo.Gerr.{parse, is_retryable, is_retryable_type, retryable_of}
use quickgo.Resilience.Retry.Retryable.{
  is_context_error, Retryable, a_gerr, answers, as_retryable, as_retryable_of, is_retryable_error,
  retryable_found,
}

-- The errors with a method `IsRetryable` in an error's chain, from left to right. The causes of a `*GErr` are
-- not among them; those of a `custom` error are.
unfoldable mutual
  pub marks : Error → List Retryable
  marks (gerr code msg type cause stack metadata) =
      a_gerr (
        some (record {
          code = code;
          msg = msg;
          type = type;
          cause = cause;
          stack = stack;
          metadata = metadata;
        }))
      ∷ []
  marks nil_gerr = a_gerr none ∷ []
  marks canceled = []
  marks deadline_exceeded = []
  marks (plain text) = []
  marks (wrapping text err) = marks err
  marks (joined text errs) = marks_of errs
  marks (custom text answer cause) = answers answer ∷ marks_cause cause

  pub marks_cause : Cause → List Retryable
  marks_cause no_cause = []
  marks_cause (caused_by err) = marks err

  pub marks_of : Errors → List Retryable
  marks_of nil = []
  marks_of (cons err errs) = marks err ++ marks_of errs

mutual
  unfolding as_retryable marks

  as_retryable-first : (err : Error) → as_retryable err ≡ first (marks err)
  as_retryable-first (gerr code msg type cause stack metadata) = refl
  as_retryable-first nil_gerr = refl
  as_retryable-first canceled = refl
  as_retryable-first deadline_exceeded = refl
  as_retryable-first (plain text) = refl
  as_retryable-first (wrapping text err) = as_retryable-first err
  as_retryable-first (joined text errs) = as_retryable_of-first errs
  as_retryable-first (custom text answer cause) = refl

  as_retryable_of-first : (errs : Errors) → as_retryable_of errs ≡ first (marks_of errs)
  as_retryable_of-first nil = refl
  as_retryable_of-first (cons err errs) =
      (λ i. or_else (as_retryable-first err i) (as_retryable_of-first errs i))
      ∙ sym (first-append (marks err) (marks_of errs))

-- The `*GErr`s among them
abbrev pub gerrs : List Retryable → List (Option GErr)
gerrs [] = []
gerrs (a_gerr e ∷ ms) = e ∷ gerrs ms
gerrs (answers answer ∷ ms) = gerrs ms

gerrs-append : (xs ys : List Retryable) → gerrs (xs ++ ys) ≡ gerrs xs ++ gerrs ys
gerrs-append [] ys = refl
gerrs-append (a_gerr e ∷ ms) ys = ap (λ es. e ∷ es) (gerrs-append ms ys)
gerrs-append (answers answer ∷ ms) ys = gerrs-append ms ys

mutual
  unfolding leaves marks

  leaves-gerrs : (err : Error) → leaves err ≡ gerrs (marks err)
  leaves-gerrs (gerr code msg type cause stack metadata) = refl
  leaves-gerrs nil_gerr = refl
  leaves-gerrs canceled = refl
  leaves-gerrs deadline_exceeded = refl
  leaves-gerrs (plain text) = refl
  leaves-gerrs (wrapping text err) = leaves-gerrs err
  leaves-gerrs (joined text errs) = leaves_of-gerrs errs
  leaves-gerrs (custom text answer cause) = leaves_cause-gerrs cause

  leaves_cause-gerrs : (cause : Cause) → leaves_cause cause ≡ gerrs (marks_cause cause)
  leaves_cause-gerrs no_cause = refl
  leaves_cause-gerrs (caused_by err) = leaves-gerrs err

  leaves_of-gerrs : (errs : Errors) → leaves_of errs ≡ gerrs (marks_of errs)
  leaves_of-gerrs nil = refl
  leaves_of-gerrs (cons err errs) =
      (λ i. leaves-gerrs err i ++ leaves_of-gerrs errs i)
      ∙ sym (gerrs-append (marks err) (marks_of errs))

-- What the type of the first `*GErr` says; a nil one or none at all says no.
abbrev pub by_type : List (Option GErr) → Bool
by_type [] = false
by_type (none ∷ es) = false
by_type (some e ∷ es) = is_retryable_type e.type

-- The two answers, by the first error of the chain that has the method `IsRetryable`
abbrev pub Agree : Bool → Option Bool → Error → List Retryable → Type 0
Agree here there err (a_gerr (some e) ∷ ms) =
    (here ≡ is_retryable_type e.type) × (there ≡ some here)
Agree here there err (a_gerr none ∷ ms) = (here ≡ false) × (there ≡ none)
Agree here there err (answers answer ∷ ms) = (here ≡ by_type (gerrs ms)) × (there ≡ some answer)
Agree here there err [] = (here ≡ false) × (there ≡ some (not (is_context_error err)))

parsed-by_type :
    (format : ℤ → String) (stack : List String) (err : Error) (es : List (Option GErr))
    → retryable_of (parsed format stack err es) ≡ by_type es
unfolding retryable_of parsed
parsed-by_type format stack err [] = refl
parsed-by_type format stack err (none ∷ es) = refl
parsed-by_type format stack err (some e ∷ es) = refl

Agree-first :
    (err : Error) (ms : List Retryable)
    → Agree (by_type (gerrs ms)) (retryable_found err (first ms)) err ms
unfolding retryable_found
Agree-first err [] = (refl, refl)
Agree-first err (a_gerr none ∷ ms) = (refl, refl)
Agree-first err (a_gerr (some e) ∷ ms) = (refl, refl)
Agree-first err (answers answer ∷ ms) = (refl, refl)

-- gerr's `IsRetryable` and resilience's `IsRetryableError`, by the first error of the chain with a method
-- `IsRetryable`. If it is a `*GErr` that is not nil, both give the answer of its type. If it is a nil one, the
-- first says no and the second panics. If it is an error of another type, the second gives its answer, and the
-- first that of the first `*GErr` after it, which is no without one. If there is none, the first says no, and
-- the second yes unless the error is one of a context.
pub is_retryable-is_retryable_error :
    (format : ℤ → String) (stack : List String) (err : Error)
    → Agree (is_retryable format stack (some err)) (is_retryable_error (some err)) err (marks err)
unfolding is_retryable is_retryable_error
is_retryable-is_retryable_error format stack err =
    let here : by_type (gerrs (marks err)) ≡ retryable_of (parse format stack (some err)) = sym (
      ap retryable_of (parse-parsed format stack err)
      ∙ parsed-by_type format stack err (leaves err)
      ∙ ap by_type (leaves-gerrs err)) in
    let there : retryable_found err (first (marks err)) ≡ retryable_found err (as_retryable err) =
      ap (retryable_found err) (sym (as_retryable-first err)) in
    subst (λ b. Agree b (retryable_found err (as_retryable err)) err (marks err)) here
      (subst (λ o. Agree (by_type (gerrs (marks err))) o err (marks err)) there
        (Agree-first err (marks err)))

marks-wrap_all : (texts : List String) (err : Error) → marks (wrap_all texts err) ≡ marks err
unfolding marks
marks-wrap_all [] err = refl
marks-wrap_all (text ∷ texts) err = marks-wrap_all texts err

-- An error that is wrapped by gerr's `Wrap` is not retryable for either, whatever it is and whatever
-- fmt.Errorf wraps around it.
pub wrap-not_retryable :
    (format : ℤ → String) (stack stack' : List String) (err : Error) (code : ℤ) (msg : String)
    (texts : List String)
    → (w : GErr) × (wrap stack' (some err) code msg ≡ some w)
      × (is_retryable format stack (some (wrap_all texts (to_error w))) ≡ false)
      × (is_retryable_error (some (wrap_all texts (to_error w))) ≡ some false)
unfolding wrap is_retryable is_retryable_error marks to_error
wrap-not_retryable format stack stack' err code msg texts =
    let w : GErr = record {
      code = code;
      msg = msg;
      type = type_internal;
      cause = caused_by err;
      stack = stack';
      metadata = none;
    } in
    let wrapped = wrap_all texts (to_error w) in
    (
      w,
      refl,
      ap retryable_of (parse-wrap_all format stack texts w),
      ap (retryable_found wrapped)
          (as_retryable-first wrapped ∙ ap first (marks-wrap_all texts (to_error w))),
    )
