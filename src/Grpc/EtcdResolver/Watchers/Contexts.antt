-- ===== src/Grpc/EtcdResolver/Watchers/Contexts.antt =====
-- grpc/etcd.go: no context of a watch is left after its watch or after `Close`.
use quickgo.Prelude.{
  ℕ, ◌+◌, ◌%◌, ◌≤◌, ◌<◌, ◌≡◌, refl, ◌==◌, Bool, true, false, not, ◌||◌, Option, none, some, List,
  [], ◌∷◌, map, arith, length, get_elem?, if_both,
}
use native.Mathlib.Nat.{mod-eq_of_lt}
use quickgo.Prelude.Counts.{one_if, times, times-append, times-set, copies}
use quickgo.Grpc.EtcdResolver.Watchers.{
  uint64, EtcdResolver, new_etcd_resolver, Call, begun, cancelled, is_watcher, add_watcher,
  delete_watcher, Watch, watching, deleting, cancelling, over, Outcome, begin_with, begin_watch,
  fail_watch, end_loop, finish_watch, close, Op, beginning, failing, ending, finishing, closing,
  step, run,
}

abbrev pub begins : ℕ → Call → ℕ
begins i (begun id) = one_if (id == i)
begins i (cancelled id) = 0

abbrev pub cancels : ℕ → Call → ℕ
cancels i (begun id) = 0
cancels i (cancelled id) = one_if (id == i)

is_watcher-copies : (i : ℕ) (ws : List ℕ) → copies i ws ≡ 0 → is_watcher i ws ≡ false
is_watcher-copies i [] e = refl
is_watcher-copies i (j ∷ js) e = ground (arith, is_watcher-copies i js)

-- One is deleted, if there is one.
delete_watcher-copies :
    (i id : ℕ) (ws : List ℕ)
    → (copies i ws ≤ copies i (delete_watcher id ws) + one_if (id == i))
      × (copies i (delete_watcher id ws) ≤ copies i ws)
unfolding delete_watcher
delete_watcher-copies i id [] = (omega arith, omega arith)
delete_watcher-copies i id (j ∷ js) =
    let ih = delete_watcher-copies i id js in (ground (arith, ih), ground (arith, ih))

all_cancelled :
    (i : ℕ) (ws : List ℕ)
    → (times (cancels i) (map cancelled ws) ≡ copies i ws)
      × (times (begins i) (map cancelled ws) ≡ 0)
all_cancelled i [] = (refl, refl)
all_cancelled i (w ∷ ws) = let ih = all_cancelled i ws in (omega (arith, ih), omega (arith, ih))

-- How often context `i` is that of a watch that is to cancel it, or to delete it.
abbrev pub is_cancelling : ℕ → Watch → ℕ
is_cancelling i (cancelling id) = one_if (id == i)
is_cancelling i (watching id) = 0
is_cancelling i (deleting id) = 0
is_cancelling i over = 0

abbrev is_deleting : ℕ → Watch → ℕ
is_deleting i (deleting id) = one_if (id == i)
is_deleting i (watching id) = 0
is_deleting i (cancelling id) = 0
is_deleting i over = 0

-- Between two states: what is begun is cancelled, or the resolver or a watch is to cancel it. Watches that
-- are to delete theirs have cancelled them.
abbrev Kept : ℕ → EtcdResolver → List Watch → Outcome → Type 0
Kept i r watches o =
    copies i r.watchers
      + times (is_cancelling i) watches
      + times (is_deleting i) o.1
      + times (begins i) o.2
    ≤ times (cancels i) o.2
      + copies i o.0.watchers
      + times (is_cancelling i) o.1
      + times (is_deleting i) watches

-- A closed resolver has no watchers, and the numbers to come are not among them.
record IsValid (r : EtcdResolver) : Type 0 where
  fresh : (j : ℕ) → r.watcher_seq < j → copies j r.watchers ≡ 0
  none_if_closed : (i : ℕ) → r.closed ≡ true → copies i r.watchers ≡ 0

add_watcher-copies :
    (i id : ℕ) (ws : List ℕ)
    → copies id ws ≡ 0
    → copies i (add_watcher id ws) ≡ one_if (id == i) + copies i ws
unfolding add_watcher
add_watcher-copies i id ws e = ground (arith, is_watcher-copies id ws e)

-- A step from a valid state: its contexts are kept and it uses up a number at most.
record IsKept (r : EtcdResolver) (watches : List Watch) (o : Outcome) : Type 0 where
  kept : (i : ℕ) → Kept i r watches o
  valid : IsValid o.0
  seq : o.0.watcher_seq ≤ r.watcher_seq + 1

same-IsKept :
    (r : EtcdResolver) (watches : List Watch) → IsValid r → IsKept r watches (r, watches, [])
same-IsKept r watches v = record { kept = λ i. omega arith; valid = v; seq = omega arith }

begin_with-IsKept :
    (id : ℕ) (r : EtcdResolver) (watches : List Watch)
    → id ≡ r.watcher_seq + 1
    → r.closed ≡ false
    → IsValid r
    → IsKept r watches (begin_with id r watches)
unfolding begin_with
begin_with-IsKept id r watches next is_open v =
    let free = v.fresh id (omega arith) in
    record {
      kept = λ i. omega (arith, add_watcher-copies i id r.watchers free);
      valid = record {
        fresh = λ j more.
            ground (arith, add_watcher-copies j id r.watchers free, v.fresh j (omega arith));
        none_if_closed = λ i shut. absurd (cc (shut, is_open));
      };
      seq = omega arith;
    }

begin_watch-IsKept :
    (callback : Bool) (r : EtcdResolver) (watches : List Watch)
    → r.watcher_seq + 1 < uint64
    → IsValid r
    → IsKept r watches (begin_watch callback r watches)
unfolding begin_watch
begin_watch-IsKept callback r watches small v =
    if_both (IsKept r watches) (not callback || (r.closed || not r.client))
      (λ e. same-IsKept r watches v)
      (λ e.
        begin_with-IsKept ((r.watcher_seq + 1) % uint64) r watches (mod-eq_of_lt small)
          (ground (arith, e)) v)

fail_watch-IsKept :
    (k : ℕ) (found : Option Watch) (r : EtcdResolver) (watches : List Watch)
    → get_elem? watches k ≡ found
    → IsValid r
    → IsKept r watches (fail_watch k found r watches)
unfolding fail_watch
fail_watch-IsKept k none r watches e v = same-IsKept r watches v
fail_watch-IsKept k (some (watching id)) r watches e v = record {
  kept = λ i. omega (
    arith,
    times-set (is_cancelling i) watches k (watching id) (deleting id) e,
    times-set (is_deleting i) watches k (watching id) (deleting id) e,
  );
  valid = v;
  seq = omega arith;
}
fail_watch-IsKept k (some (deleting id)) r watches e v = same-IsKept r watches v
fail_watch-IsKept k (some (cancelling id)) r watches e v = same-IsKept r watches v
fail_watch-IsKept k (some over) r watches e v = same-IsKept r watches v

delete_watcher-IsValid :
    (id : ℕ) (r : EtcdResolver)
    → IsValid r
    → IsValid (record r { watchers = delete_watcher id r.watchers })
delete_watcher-IsValid id r v =
    let less = λ (i : ℕ). delete_watcher-copies i id r.watchers in
    record {
      fresh = λ j more. omega (arith, less j, v.fresh j more);
      none_if_closed = λ i shut. omega (arith, less i, v.none_if_closed i shut);
    }

end_loop-IsKept :
    (k : ℕ) (found : Option Watch) (r : EtcdResolver) (watches : List Watch)
    → get_elem? watches k ≡ found
    → IsValid r
    → IsKept r watches (end_loop k found r watches)
unfolding end_loop
end_loop-IsKept k none r watches e v = same-IsKept r watches v
end_loop-IsKept k (some (watching id)) r watches e v = record {
  kept = λ i. omega (
    arith,
    delete_watcher-copies i id r.watchers,
    times-set (is_cancelling i) watches k (watching id) (cancelling id) e,
    times-set (is_deleting i) watches k (watching id) (cancelling id) e,
  );
  valid = delete_watcher-IsValid id r v;
  seq = omega arith;
}
end_loop-IsKept k (some (deleting id)) r watches e v = same-IsKept r watches v
end_loop-IsKept k (some (cancelling id)) r watches e v = same-IsKept r watches v
end_loop-IsKept k (some over) r watches e v = same-IsKept r watches v

finish_watch-IsKept :
    (k : ℕ) (found : Option Watch) (r : EtcdResolver) (watches : List Watch)
    → get_elem? watches k ≡ found
    → IsValid r
    → IsKept r watches (finish_watch k found r watches)
unfolding finish_watch
finish_watch-IsKept k none r watches e v = same-IsKept r watches v
finish_watch-IsKept k (some (watching id)) r watches e v = same-IsKept r watches v
finish_watch-IsKept k (some (deleting id)) r watches e v = record {
  kept = λ i. omega (
    arith,
    delete_watcher-copies i id r.watchers,
    times-set (is_cancelling i) watches k (deleting id) over e,
    times-set (is_deleting i) watches k (deleting id) over e,
  );
  valid = delete_watcher-IsValid id r v;
  seq = omega arith;
}
finish_watch-IsKept k (some (cancelling id)) r watches e v = record {
  kept = λ i. omega (
    arith,
    times-set (is_cancelling i) watches k (cancelling id) over e,
    times-set (is_deleting i) watches k (cancelling id) over e,
  );
  valid = v;
  seq = omega arith;
}
finish_watch-IsKept k (some over) r watches e v = same-IsKept r watches v

close-IsKept :
    (r : EtcdResolver) (watches : List Watch) → IsValid r → IsKept r watches (close r watches)
unfolding close
close-IsKept r watches v =
    if_both (IsKept r watches) r.closed (λ e. same-IsKept r watches v)
      (λ e. record {
        kept = λ i. omega (arith, all_cancelled i r.watchers);
        valid = record { fresh = λ j more. refl; none_if_closed = λ i shut. refl };
        seq = omega arith;
      })

step-IsKept :
    (op : Op) (r : EtcdResolver) (watches : List Watch)
    → r.watcher_seq + 1 < uint64
    → IsValid r
    → IsKept r watches (step op r watches)
unfolding step
step-IsKept (beginning callback) r watches small v = begin_watch-IsKept callback r watches small v
step-IsKept (failing k) r watches small v = fail_watch-IsKept k _ r watches refl v
step-IsKept (ending k) r watches small v = end_loop-IsKept k _ r watches refl v
step-IsKept (finishing k) r watches small v = finish_watch-IsKept k _ r watches refl v
step-IsKept closing r watches small v = close-IsKept r watches v

run-Kept :
    (ops : List Op) (r : EtcdResolver) (watches : List Watch)
    → r.watcher_seq + length ops < uint64
    → IsValid r
    → ((i : ℕ) → Kept i r watches (run ops r watches)) × IsValid (run ops r watches).0
unfolding run
run-Kept [] r watches small v = (λ i. omega arith, v)
run-Kept (op ∷ ops) r watches small v =
    let o = step op r watches in
    let one = step-IsKept op r watches (omega arith) v in
    let (rest, valid) = run-Kept ops o.0 o.1 (omega (arith, one.seq)) one.valid in
    let more = run ops o.0 o.1 in
    (
      λ i. omega (
        arith,
        one.kept i,
        rest i,
        times-append (begins i) o.2 more.2,
        times-append (cancels i) o.2 more.2,
      ),
      valid,
    )

new_etcd_resolver-IsValid : IsValid new_etcd_resolver
new_etcd_resolver-IsValid = record { fresh = λ j more. refl; none_if_closed = λ i shut. refl }

-- Once a resolver is closed, the context of every watch that was ever started is cancelled, or its watch is
-- between deleting it and cancelling it, however the steps of the watches and the closing are interleaved.
-- There are fewer than 2 ^ 64 steps.
pub new_etcd_resolver-closed :
    (ops : List Op) (i : ℕ)
    → length ops < uint64
    → (run ops new_etcd_resolver []).0.closed ≡ true
    → times (begins i) (run ops new_etcd_resolver []).2
      ≤ times (cancels i) (run ops new_etcd_resolver []).2
        + times (is_cancelling i) (run ops new_etcd_resolver []).1
new_etcd_resolver-closed ops i small shut =
    let (kept, valid) = run-Kept ops new_etcd_resolver [] (omega arith) new_etcd_resolver-IsValid in
    omega (arith, kept i, valid.none_if_closed i shut)
