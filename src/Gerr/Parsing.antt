-- ===== src/Gerr/Parsing.antt =====
-- gerr/error.go: what `Parse` and the functions that rest on it make of a chain.
use Prim.Native.String.{String}
use quickgo.Prelude.{◌≡◌, refl, ap, sym, ◌∙◌, Option, none, some, List, [], ◌∷◌, ◌++◌}
use quickgo.Prelude.Int.{ℤ, pos}
use quickgo.Gerr.Chains.{
  type_unknown, Error, gerr, nil_gerr, canceled, deadline_exceeded, plain, wrapping, joined, custom,
  Cause, no_cause, as_gerr_cause, caused_by, Errors, nil, cons, GErr, to_error, as_gerr, as_gerr_of,
  or_else,
}
use quickgo.Gerr.{error_text, parse, parse_found, parse_asserted, assert_gerr}

-- The `*GErr`s at the ends of the wrappings and joins of an error, from left to right. The causes of a
-- `*GErr` are not among them; those of a `custom` error are.
unfoldable mutual
  pub leaves : Error → List (Option GErr)
  leaves (gerr code msg type cause stack metadata) =
      some (record {
        code = code;
        msg = msg;
        type = type;
        cause = cause;
        stack = stack;
        metadata = metadata;
      })
      ∷ []
  leaves nil_gerr = none ∷ []
  leaves canceled = []
  leaves deadline_exceeded = []
  leaves (plain text) = []
  leaves (wrapping text err) = leaves err
  leaves (joined text errs) = leaves_of errs
  leaves (custom text answer cause) = leaves_cause cause

  pub leaves_cause : Cause → List (Option GErr)
  leaves_cause no_cause = []
  leaves_cause (caused_by err) = leaves err

  pub leaves_of : Errors → List (Option GErr)
  leaves_of nil = []
  leaves_of (cons err errs) = leaves err ++ leaves_of errs

abbrev pub first : {A : Type 0} → List A → Option A
first [] = none
first (e ∷ es) = some e

pub first-append : {A : Type 0} (xs ys : List A) → first (xs ++ ys) ≡ or_else (first xs) (first ys)
unfolding or_else
first-append [] ys = refl
first-append (x ∷ xs) ys = refl

mutual
  unfolding as_gerr leaves

  pub as_gerr-first : (err : Error) → as_gerr err ≡ first (leaves err)
  as_gerr-first (gerr code msg type cause stack metadata) = refl
  as_gerr-first nil_gerr = refl
  as_gerr-first canceled = refl
  as_gerr-first deadline_exceeded = refl
  as_gerr-first (plain text) = refl
  as_gerr-first (wrapping text err) = as_gerr-first err
  as_gerr-first (joined text errs) = as_gerr_of-first errs
  as_gerr-first (custom text answer cause) = as_gerr_cause-first cause

  as_gerr_cause-first : (cause : Cause) → as_gerr_cause cause ≡ first (leaves_cause cause)
  as_gerr_cause-first no_cause = refl
  as_gerr_cause-first (caused_by err) = as_gerr-first err

  as_gerr_of-first : (errs : Errors) → as_gerr_of errs ≡ first (leaves_of errs)
  as_gerr_of-first nil = refl
  as_gerr_of-first (cons err errs) =
      (λ i. or_else (as_gerr-first err i) (as_gerr_of-first errs i))
      ∙ sym (first-append (leaves err) (leaves_of errs))

-- What `Parse` ought to return, by the first of the leaves.
unfoldable pub parsed : (ℤ → String) → List String → Error → List (Option GErr) → Option GErr
parsed format stack err (e ∷ es) = e
parsed format stack err [] = some (record {
  code = pos 0;
  msg = error_text format err;
  type = type_unknown;
  cause = caused_by err;
  stack = stack;
  metadata = none;
})

found-parsed :
    (format : ℤ → String) (stack : List String) (err : Error) (es : List (Option GErr))
    → parse_found format stack err (first es) ≡ parsed format stack err es
unfolding parse_found parsed
found-parsed format stack err [] = refl
found-parsed format stack err (e ∷ es) = refl

by_chain :
    (format : ℤ → String) (stack : List String) (err : Error)
    → parse_found format stack err (as_gerr err) ≡ parsed format stack err (leaves err)
by_chain format stack err =
    ap (parse_found format stack err) (as_gerr-first err)
    ∙ found-parsed format stack err (leaves err)

-- `Parse` of an error that is not nil returns the first `*GErr` of its chain, which is nil if that is a nil
-- pointer, and if there is none a new one with code 0, the unknown type, the error's text and the error as
-- its cause.
pub parse-parsed :
    (format : ℤ → String) (stack : List String) (err : Error)
    → parse format stack (some err) ≡ parsed format stack err (leaves err)
unfolding parse leaves parsed assert_gerr parse_asserted
parse-parsed format stack (gerr code msg type cause stack' metadata) = refl
parse-parsed format stack nil_gerr = refl
parse-parsed format stack canceled = by_chain format stack canceled
parse-parsed format stack deadline_exceeded = by_chain format stack deadline_exceeded
parse-parsed format stack (plain text) = by_chain format stack (plain text)
parse-parsed format stack (wrapping text err) = by_chain format stack (wrapping text err)
parse-parsed format stack (joined text errs) = by_chain format stack (joined text errs)
parse-parsed format stack (custom text answer cause) =
    by_chain format stack (custom text answer cause)

-- An error with texts wrapped around it by fmt.Errorf, the outermost first.
abbrev pub wrap_all : List String → Error → Error
wrap_all [] err = err
wrap_all (text ∷ texts) err = wrapping text (wrap_all texts err)

pub leaves-wrap_all : (texts : List String) (err : Error) → leaves (wrap_all texts err) ≡ leaves err
unfolding leaves
leaves-wrap_all [] err = refl
leaves-wrap_all (text ∷ texts) err = leaves-wrap_all texts err

parsed-gerr :
    (format : ℤ → String) (stack : List String) (err : Error) (e : GErr)
    → parsed format stack err (leaves (to_error e)) ≡ some e
unfolding parsed leaves to_error
parsed-gerr format stack err e = refl

-- However often a `*GErr` is wrapped by fmt.Errorf, `Parse` gets it back unchanged.
pub parse-wrap_all :
    (format : ℤ → String) (stack : List String) (texts : List String) (e : GErr)
    → parse format stack (some (wrap_all texts (to_error e))) ≡ some e
parse-wrap_all format stack texts e =
    parse-parsed format stack (wrap_all texts (to_error e))
    ∙ ap (parsed format stack _) (leaves-wrap_all texts (to_error e))
    ∙ parsed-gerr format stack _ e
