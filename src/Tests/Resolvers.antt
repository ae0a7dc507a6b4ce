-- ===== src/Tests/Resolvers.antt =====
-- grpc/etcd.go: a resolver that two watches use is closed; two instances of one address; a watch restarts.
use quickgo.Prelude.{
  ◌+◌, ◌++◌, if◌then◌else◌, ◌≡◌, ◌≤◌, refl, true, Option, none, some, List, [], ◌∷◌, String, arith,
  get_elem?,
}
use quickgo.Prelude.Counts.{one_if, times}
use quickgo.Prelude.Dict.{◌is◌, is_mem}
use quickgo.Prelude.Int.{ℤ, pos}
use quickgo.Grpc.EtcdResolver.{
  KeyValue, Got, got, Round, service_addresses, resolve, resolve_resolver_addresses,
  retry_etcd_watch,
}
use quickgo.Grpc.EtcdResolver.Addresses.{names, occurrences, service_addresses-occurrences}
use quickgo.Grpc.EtcdResolver.Weights.{
  resolved_as, weigh, first_weight, resolve_resolver_addresses-resolve,
}
use quickgo.Grpc.EtcdResolver.Restarts.{delays, doubled, at_most, retry_etcd_watch-doubled}
use quickgo.Grpc.EtcdResolver.Watchers.{
  new_etcd_resolver, Op, beginning, ending, finishing, closing, run,
}
use quickgo.Grpc.EtcdResolver.Watchers.Contexts.{
  begins, cancels, is_cancelling, new_etcd_resolver-closed,
}

-- Every key names the instance a:1.
abbrev base : String → String
base key = "a:1"

abbrev kvs : List KeyValue
kvs = record { key = "/x/a:1"; value = "5" } ∷ record { key = "/y/a:1"; value = "" } ∷ []

service_addresses-occurrences_example :
    occurrences "a:1" (service_addresses base kvs) ≡ one_if (is_mem "a:1" (names base kvs))
service_addresses-occurrences_example = service_addresses-occurrences base "a:1" kvs

abbrev answer : Got String
answer = got kvs

abbrev json : String → Option (List (String × String))
json value = some (("weight", value) ∷ [])

abbrev number : String → Option ℤ
number text = if text is "5" then some (pos 5) else none

resolve_resolver_addresses-resolve_example :
    resolve_resolver_addresses base json number true answer
    ≡ resolved_as (weigh base json number kvs) (resolve base true answer)
resolve_resolver_addresses-resolve_example =
    resolve_resolver_addresses-resolve base json number true answer refl

weighs_five : first_weight base json number kvs "a:1" ≡ some (pos 5)
unfolding quickgo.Prelude.Dict.lookup
weighs_five = refl

abbrev on : Round
on = record { before = true; after = true; fired = true }

abbrev rounds : List Round
rounds = on ∷ on ∷ on ∷ []

third_wait : get_elem? (delays (retry_etcd_watch rounds (pos 10) (pos 30))) 2 ≡ some (pos 30)
unfolding retry_etcd_watch
third_wait = refl

retry_etcd_watch-doubled_example : pos 30 ≡ pos (at_most (doubled 10 2) 30)
retry_etcd_watch-doubled_example =
    retry_etcd_watch-doubled rounds 10 30 2 (pos 30) (omega arith) (omega arith) third_wait

-- The loop of the watch 1 ends and deletes it, the resolver is closed, and the watch is to cancel its context.
abbrev ops : List Op
ops = beginning true ∷ beginning true ∷ ending 1 ∷ closing ∷ []

is_closed : (run ops new_etcd_resolver []).0.closed ≡ true
unfolding run
is_closed = refl

new_etcd_resolver-closed_example :
    times (begins 1) (run ops new_etcd_resolver []).2
    ≤ times (cancels 1) (run ops new_etcd_resolver []).2
      + times (is_cancelling 1) (run ops new_etcd_resolver []).1
new_etcd_resolver-closed_example = new_etcd_resolver-closed ops 1 (omega arith) is_closed

-- Its context is not cancelled, and it is when the watch is over.
not_yet : times (cancels 1) (run ops new_etcd_resolver []).2 ≡ 0
unfolding run
not_yet = refl

at_last : times (cancels 1) (run (ops ++ finishing 1 ∷ []) new_etcd_resolver []).2 ≡ 1
unfolding run
at_last = refl
