-- ===== src/Grpc/EtcdResolver/Watchers.antt =====
-- grpc/etcd.go: the watchers of a resolver. A context is its watcher's number; the watches are a list, by where
-- their goroutines are, and a step is what one goroutine does under the lock, or one call of a `cancel`.
pub mod Contexts
use quickgo.Prelude.{
  ℕ, zero, suc, ◌+◌, ◌%◌, ◌==◌, Bool, true, false, not, ◌||◌, ◌&&◌, Option, none, some, List, [],
  ◌∷◌, ◌++◌, map, get_elem?, set, if◌then◌else◌,
}

-- 2 ^ 64
abbrev pub uint64 : ℕ
uint64 = 18446744073709551616

pub record EtcdResolver : Type 0 where
  pub client : Bool
  pub watchers : List ℕ
  pub watcher_seq : ℕ
  pub closed : Bool

-- `NewEtcdResolver`, when etcd's client is made
abbrev pub new_etcd_resolver : EtcdResolver
new_etcd_resolver = record { client = true; watchers = []; watcher_seq = 0; closed = false }

-- What is done to a context.
pub data Call : Type 0 where
  begun cancelled : ℕ → Call

abbrev pub is_watcher : ℕ → List ℕ → Bool
is_watcher id [] = false
is_watcher id (j ∷ js) = j == id || is_watcher id js

-- `r.watchers[watcherID] = cancel`
unfoldable pub add_watcher : ℕ → List ℕ → List ℕ
add_watcher id watchers = if is_watcher id watchers then watchers else id ∷ watchers

-- `delete(r.watchers, watcherID)`
unfoldable pub delete_watcher : ℕ → List ℕ → List ℕ
delete_watcher id [] = []
delete_watcher id (j ∷ js) = if j == id then js else j ∷ delete_watcher id js

unfoldable pub is_open : EtcdResolver → Bool
is_open r = not r.closed && r.client

-- Where a watch is: it runs; its context is cancelled, and it is deleted next, as when it fails before its
-- loop; it is deleted, and its context is cancelled next, as when its loop ends; or it is over.
pub data Watch : Type 0 where
  watching deleting cancelling : ℕ → Watch
  over : Watch

-- The resolver, the watches, and the contexts that are made and cancelled.
abbrev pub Outcome : Type 0
Outcome = EtcdResolver × List Watch × List Call

-- A watch of a number starts.
unfoldable pub begin_with : ℕ → EtcdResolver → List Watch → Outcome
unfolding add_watcher
begin_with id r watches = (
  record r { watcher_seq = id; watchers = add_watcher id r.watchers },
  watching id ∷ watches,
  begun id ∷ [],
)

-- The start of `watch` with a callback; without one, or when it is closed, nothing is started.
unfoldable pub begin_watch : Bool → EtcdResolver → List Watch → Outcome
unfolding begin_with
begin_watch callback r watches =
    if not callback || (r.closed || not r.client)
    then (r, watches, [])
    else begin_with ((r.watcher_seq + 1) % uint64) r watches

-- `cancel()` of a watch that fails before its loop
unfoldable pub fail_watch : ℕ → Option Watch → EtcdResolver → List Watch → Outcome
fail_watch k none r watches = (r, watches, [])
fail_watch k (some (watching id)) r watches = (r, set watches k (deleting id), cancelled id ∷ [])
fail_watch k (some (deleting id)) r watches = (r, watches, [])
fail_watch k (some (cancelling id)) r watches = (r, watches, [])
fail_watch k (some over) r watches = (r, watches, [])

-- `cleanup()` at the end of the loop, which is deferred last and so comes first
unfoldable pub end_loop : ℕ → Option Watch → EtcdResolver → List Watch → Outcome
unfolding delete_watcher
end_loop k none r watches = (r, watches, [])
end_loop k (some (watching id)) r watches =
    (record r { watchers = delete_watcher id r.watchers }, set watches k (cancelling id), [])
end_loop k (some (deleting id)) r watches = (r, watches, [])
end_loop k (some (cancelling id)) r watches = (r, watches, [])
end_loop k (some over) r watches = (r, watches, [])

-- the second of the two: `cleanup()` of a watch that failed, `cancel()` of one whose loop ended
unfoldable pub finish_watch : ℕ → Option Watch → EtcdResolver → List Watch → Outcome
unfolding delete_watcher
finish_watch k none r watches = (r, watches, [])
finish_watch k (some (watching id)) r watches = (r, watches, [])
finish_watch k (some (deleting id)) r watches =
    (record r { watchers = delete_watcher id r.watchers }, set watches k over, [])
finish_watch k (some (cancelling id)) r watches = (r, set watches k over, cancelled id ∷ [])
finish_watch k (some over) r watches = (r, watches, [])

unfoldable pub close : EtcdResolver → List Watch → Outcome
close r watches = if r.closed then (r, watches, []) else (
  record r { closed = true; watchers = []; client = false },
  watches,
  map cancelled r.watchers,
)

pub data Op : Type 0 where
  beginning : Bool → Op
  failing ending finishing : ℕ → Op
  closing : Op

unfoldable pub step : Op → EtcdResolver → List Watch → Outcome
unfolding begin_watch fail_watch end_loop finish_watch close
step (beginning callback) r watches = begin_watch callback r watches
step (failing k) r watches = fail_watch k (get_elem? watches k) r watches
step (ending k) r watches = end_loop k (get_elem? watches k) r watches
step (finishing k) r watches = finish_watch k (get_elem? watches k) r watches
step closing r watches = close r watches

unfoldable pub run : List Op → EtcdResolver → List Watch → Outcome
unfolding step
run [] r watches = (r, watches, [])
run (op ∷ ops) r watches =
    let (r₁, watches₁, calls) = step op r watches in
    let (r₂, watches₂, more) = run ops r₁ watches₁ in (r₂, watches₂, calls ++ more)
