-- ===== src/Tests/Gerrs.antt =====
-- gerr/error.go: a network error in two wrappings.
use quickgo.Prelude.{◌≡◌, true, false, none, some, [], ◌∷◌, String}
use quickgo.Prelude.Int.{ℤ, pos, negsuc}
use quickgo.Gerr.Chains.{
  GErr, to_error, plain, wrapping, joined, nil, cons, type_network, no_cause, Error, custom,
  caused_by,
}
use quickgo.Gerr.Constructors.{wrap}
use quickgo.Gerr.{parse, is_retryable, get_metadata_value}
use quickgo.Gerr.Parsing.{leaves, parsed, parse-parsed, wrap_all, parse-wrap_all}
use quickgo.Gerr.Retrying.{marks, Agree, is_retryable-is_retryable_error, wrap-not_retryable}
use quickgo.Gerr.Metadata.{with_all, last_write, get_metadata_value-with_all}
use quickgo.Resilience.Retry.Retryable.{answers, is_retryable_error}

abbrev format_int : ℤ → String
format_int (pos n) = "n"
format_int (negsuc n) = "-n"

abbrev lost : GErr
lost = record {
  code = pos 503;
  msg = "connection lost";
  type = type_network;
  cause = no_cause;
  stack = [];
  metadata = none;
}

abbrev both : Error
both = joined "" (cons (plain "first") (cons (wrapping "rpc: connection lost" (to_error lost)) nil))

parse-parsed_example : parse format_int [] (some both) ≡ some lost
unfolding leaves parsed to_error
parse-parsed_example = parse-parsed format_int [] both

parse-wrap_all_example :
    parse format_int [] (some (wrap_all ("get user" ∷ "rpc" ∷ []) (to_error lost))) ≡ some lost
parse-wrap_all_example = parse-wrap_all format_int [] ("get user" ∷ "rpc" ∷ []) lost

-- An error of another type, with a plain one in it
abbrev busy : Error
busy = custom "busy" true (caused_by (plain "db"))

is_retryable-is_retryable_error_example :
    Agree
      (is_retryable format_int [] (some busy))
      (is_retryable_error (some busy))
      busy
      (answers true ∷ [])
unfolding marks
is_retryable-is_retryable_error_example = is_retryable-is_retryable_error format_int [] busy

wrap-not_retryable_example :
    (w : GErr) × (wrap [] (some (to_error lost)) (pos 500) "get user" ≡ some w)
    × (is_retryable format_int [] (some (to_error w)) ≡ false)
    × (is_retryable_error (some (to_error w)) ≡ some false)
wrap-not_retryable_example =
    wrap-not_retryable format_int [] [] (to_error lost) (pos 500) "get user" []

get_metadata_value-with_all_example :
    get_metadata_value (with_all (("a", "2") ∷ ("b", "1") ∷ ("a", "1") ∷ []) lost) "b" ≡ "1"
unfolding last_write get_metadata_value
get_metadata_value-with_all_example =
    get_metadata_value-with_all "b" (("a", "2") ∷ ("b", "1") ∷ ("a", "1") ∷ []) lost
