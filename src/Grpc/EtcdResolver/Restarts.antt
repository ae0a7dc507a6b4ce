-- ===== src/Grpc/EtcdResolver/Restarts.antt =====
-- grpc/etcd.go: how long `retryEtcdWatch` waits between two watches.
use quickgo.Prelude.{
  ℕ, zero, suc, ◌+◌, ◌≤◌, ◌≡◌, ap, sym, ◌∙◌, leb, not, some, List, [], ◌∷◌, arith, get_elem?,
  if◌then◌else◌, if_both,
}
use quickgo.Prelude.Int.{ℤ, pos, ◌*ℤ◌}
use quickgo.Prelude.Int64.{max_int}
use quickgo.Grpc.EtcdResolver.{Round, Act, ran, waited, next_backoff, retry_etcd_watch}

-- The times waited, in order
abbrev pub delays : List Act → List ℤ
delays [] = []
delays (ran ∷ acts) = delays acts
delays (waited d ∷ acts) = d ∷ delays acts

-- A number doubled so often
abbrev pub doubled : ℕ → ℕ → ℕ
doubled b zero = b
doubled b (suc k) = doubled (b + b) k

abbrev pub at_most : ℕ → ℕ → ℕ
at_most n most = if leb n most then n else most

le_doubled : (b k : ℕ) → b ≤ doubled b k
le_doubled b zero = omega arith
le_doubled b (suc k) = omega (arith, le_doubled (b + b) k)

next_backoff-pos :
    (b most : ℕ)
    → b ≤ most
    → most + most ≤ max_int
    → next_backoff (pos b) (pos most) ≡ pos (at_most (b + b) most)
unfolding next_backoff ◌*ℤ◌
next_backoff-pos b most h big = ground arith

at_most-doubled :
    (b most k : ℕ)
    → at_most (doubled (at_most (b + b) most) k) most ≡ at_most (doubled (b + b) k) most
at_most-doubled b most k = ground (arith, le_doubled most k, le_doubled (b + b) k)

-- A first wait and later ones, which start from twice as long
first_or_later :
    (xs : List ℤ) (b most k : ℕ) (d : ℤ)
    → b ≤ most
    → ((j : ℕ)
        → get_elem? xs j ≡ some d
        → d ≡ pos (at_most (doubled (at_most (b + b) most) j) most))
    → get_elem? (pos b ∷ xs) k ≡ some d
    → d ≡ pos (at_most (doubled b k) most)
first_or_later xs b most zero d h later e = let first : pos b ≡ d = cc e in ground (arith, first, h)
first_or_later xs b most (suc k) d h later e = later k e ∙ ap pos (at_most-doubled b most k)

-- Of the waits of `retryEtcdWatch`, each is the initial one doubled as often as there were waits before it,
-- or the longest one if that is less. The initial wait is at most the longest, of which twice fits in 63 bits.
pub retry_etcd_watch-doubled :
    (rounds : List Round) (b most k : ℕ) (d : ℤ)
    → b ≤ most
    → most + most ≤ max_int
    → get_elem? (delays (retry_etcd_watch rounds (pos b) (pos most))) k ≡ some d
    → d ≡ pos (at_most (doubled b k) most)
unfolding retry_etcd_watch
retry_etcd_watch-doubled [] b most k d h big = λ e. absurd (cc e)
retry_etcd_watch-doubled (round ∷ rounds) b most k d h big =
    let Right = λ (acts : List Act).
      get_elem? (delays acts) k ≡ some d → d ≡ pos (at_most (doubled b k) most) in
    let next = next_backoff (pos b) (pos most) in
    let later : (j : ℕ)
        → get_elem? (delays (retry_etcd_watch rounds next (pos most))) j ≡ some d
        → d ≡ pos (at_most (doubled (at_most (b + b) most) j) most) =
      λ j e'. retry_etcd_watch-doubled rounds (at_most (b + b) most) most j d (ground arith) big (
        ap (λ x. get_elem? (delays (retry_etcd_watch rounds x (pos most))) j)
          (sym (next_backoff-pos b most h big))
        ∙ e') in
    if_both Right (not round.before) (λ c e. absurd (cc e))
      (λ c.
        if_both Right (not round.after) (λ c' e. absurd (cc e))
          (λ c'.
            if_both Right round.fired
              (λ c'' e.
                first_or_later (delays (retry_etcd_watch rounds next (pos most))) b most k d h later
                  e)
              (λ c'' e. first_or_later [] b most k d h (λ j e'. absurd (cc e')) e)))
