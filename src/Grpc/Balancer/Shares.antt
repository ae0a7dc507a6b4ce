-- ===== src/Grpc/Balancer/Shares.antt =====
-- grpc/balancer.go: what share of the picks each connection gets.
use native.Mathlib.Nat.{mul-le-mul_left}
use mathlib.Core.Option.{some-injective}
use quickgo.Prelude.{
  false, Bool-cases, leb, leb→le, inl, inr, ℕ, zero, suc, ◌+◌, ◌*◌, ◌≤◌, ◌<◌, ◌≡◌, ap, sym, ◌∙◌,
  subst, some, List, [], ◌∷◌, arith, length, get_elem?,
}
use quickgo.Prelude.Int.{pos_part}
use quickgo.Prelude.Int64.{max_int}
use quickgo.Grpc.Balancer.{WeightedSubConn}
use quickgo.Grpc.Balancer.Turns.{count, total_weight, tally, AllFair}
use quickgo.Grpc.Balancer.Weights.{SameWeights}
use quickgo.Grpc.Balancer.Turn.{history, IsNew, after-IsShared}

count-le : (t p w : ℕ) → t * p < t * w + t → p ≤ w
count-le t p w less = elim (Bool-cases (leb p w)) [
  | inl e ↦ leb→le p w e
  | inr e ↦ absurd (omega (arith, mul-le-mul_left t (above e)))
]
  where
    above : leb p w ≡ false → suc w ≤ p
    above e = ground arith

module _ {SubConn : Type 0} where
  owed_at :
      (k t i j : ℕ) (h : List ℕ) (c : WeightedSubConn SubConn)
      (cs ds : List (WeightedSubConn SubConn))
      → SameWeights cs ds
      → AllFair k t i h ds
      → get_elem? cs j ≡ some c
      → t * count (i + j) h < k * pos_part c.weight + t
  owed_at k t i j h c [] ds same f e = absurd (cc e)
  owed_at k t i j h c (c' ∷ cs) [] same f e = elim same [ ]
  owed_at k t i zero h c (c' ∷ cs) (d ∷ ds) same f e =
      let w : pos_part d.weight ≡ pos_part c.weight =
        ap pos_part (sym same.0 ∙ ap (λ x. x.weight) (some-injective c' c e)) in
      let shift : i ≡ i + zero = omega arith in
      subst (λ m. t * count m h < k * pos_part c.weight + t) shift
        (subst (λ x. t * count i h < k * x + t) w f.0.behind)
  owed_at k t i (suc j) h c (c' ∷ cs) (d ∷ ds) same f e =
      let shift : suc i + j ≡ i + suc j = omega arith in
      subst (λ m. t * count m h < k * pos_part c.weight + t) shift
        (owed_at k t (suc i) j h c cs ds same.1 f.1 e)

  -- In no run of picks of a new picker does a connection get a whole pick more than its share: the picks
  -- of one, times the total weight, are less than the picks of all, times its weight, and the total weight
  -- once more. The total weight, times one more than the connections, fits 64 bits.
  pub history-share :
      (k j : ℕ) (c : WeightedSubConn SubConn) (cs : List (WeightedSubConn SubConn))
      → IsNew cs
      → total_weight cs * length cs + total_weight cs ≤ max_int
      → get_elem? cs j ≡ some c
      → total_weight cs * count j (history k cs) < k * pos_part c.weight + total_weight cs
  history-share k j c [] new big e = absurd (cc e)
  history-share k j c (c' ∷ cs) new big e =
      let (s, same) = after-IsShared k (c' ∷ cs) (omega (arith, new.0.1)) big new in
      let shift : 0 + j ≡ j = omega arith in
      subst
        (λ m.
          total_weight (c' ∷ cs) * count m (history k (c' ∷ cs))
          < k * pos_part c.weight + total_weight (c' ∷ cs))
        shift
        (owed_at k (total_weight (c' ∷ cs)) 0 j (history k (c' ∷ cs)) c (c' ∷ cs) _ same s.fair e)

  tally-le_weights :
      (t i : ℕ) (h : List ℕ) (ds : List (WeightedSubConn SubConn))
      → AllFair t t i h ds
      → tally i ds h ≤ total_weight ds
  tally-le_weights t i h [] f = omega arith
  tally-le_weights t i h (d ∷ ds) f = omega (
    arith,
    count-le t (count i h) (pos_part d.weight) f.0.behind,
    tally-le_weights t (suc i) h ds f.1,
  )

  -- If each has no more than its weight and all together have the total, each has its weight.
  turn_at :
      (t i j : ℕ) (h : List ℕ) (c : WeightedSubConn SubConn)
      (cs ds : List (WeightedSubConn SubConn))
      → SameWeights cs ds
      → AllFair t t i h ds
      → tally i ds h ≡ total_weight ds
      → get_elem? cs j ≡ some c
      → count (i + j) h ≡ pos_part c.weight
  turn_at t i j h c [] ds same f all e = absurd (cc e)
  turn_at t i j h c (c' ∷ cs) [] same f all e = elim same [ ]
  turn_at t i zero h c (c' ∷ cs) (d ∷ ds) same f all e =
      let w : pos_part d.weight ≡ pos_part c.weight =
        ap pos_part (sym same.0 ∙ ap (λ x. x.weight) (some-injective c' c e)) in
      let shift : i ≡ i + zero = omega arith in
      subst (λ m. count m h ≡ pos_part c.weight) shift
        (omega (
          arith,
          w,
          all,
          count-le t (count i h) (pos_part d.weight) f.0.behind,
          tally-le_weights t (suc i) h ds f.1,
        ))
  turn_at t i (suc j) h c (c' ∷ cs) (d ∷ ds) same f all e =
      let shift : suc i + j ≡ i + suc j = omega arith in
      let rest : tally (suc i) ds h ≡ total_weight ds = omega (
        arith,
        all,
        count-le t (count i h) (pos_part d.weight) f.0.behind,
        tally-le_weights t (suc i) h ds f.1,
      ) in
      subst (λ m. count m h ≡ pos_part c.weight) shift
        (turn_at t (suc i) j h c cs ds same.1 f.1 rest e)

  -- As many picks as the total weight pick each connection as many times as its weight, on a picker that
  -- is new. The total weight, times one more than the connections, fits 64 bits.
  pub history-turn :
      (j : ℕ) (c : WeightedSubConn SubConn) (cs : List (WeightedSubConn SubConn))
      → IsNew cs
      → total_weight cs * length cs + total_weight cs ≤ max_int
      → get_elem? cs j ≡ some c
      → count j (history (total_weight cs) cs) ≡ pos_part c.weight
  history-turn j c [] new big e = absurd (cc e)
  history-turn j c (c' ∷ cs) new big e =
      let t = total_weight (c' ∷ cs) in
      let (s, same) = after-IsShared t (c' ∷ cs) (omega (arith, new.0.1)) big new in
      let shift : 0 + j ≡ j = omega arith in
      subst (λ m. count m (history t (c' ∷ cs)) ≡ pos_part c.weight) shift
        (turn_at t 0 j (history t (c' ∷ cs)) c (c' ∷ cs) _ same s.fair (s.picks ∙ sym s.total) e)
