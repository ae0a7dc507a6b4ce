-- ===== src/Grpc/Balancer/Turns.antt =====
-- grpc/balancer.go: how often each connection has been picked, against its share.
use quickgo.Prelude.{
  ℕ, suc, ◌+◌, ◌*◌, ◌≤◌, ◌<◌, ◌≡◌, ◌==◌, List, [], ◌∷◌, map, arith, length, if◌then◌else◌,
}
use quickgo.Prelude.Int.{pos_part, neg_part, parts_disjoint}
use quickgo.Prelude.Int64.{max_int, int_add_parts}
use quickgo.Grpc.Balancer.{WeightedSubConn, raise}

-- how often an index stands in a history of picks
abbrev pub count : ℕ → List ℕ → ℕ
count i [] = 0
count i (m ∷ h) = if m == i then suc (count i h) else count i h

module _ {SubConn : Type 0} where
  abbrev pub total_weight : List (WeightedSubConn SubConn) → ℕ
  total_weight [] = 0
  total_weight (c ∷ cs) = pos_part c.weight + total_weight cs

  -- the picks in a history of the connections from index `i` on
  abbrev pub tally : ℕ → List (WeightedSubConn SubConn) → List ℕ → ℕ
  tally i [] h = 0
  tally i (c ∷ cs) h = count i h + tally (suc i) cs h

  -- After `k` picks, `p` of them of `c`, out of a total weight of `t`: its current weight is what it is
  -- owed, `k` times its weight, less the `t` of each pick, and more than -t.
  pub record IsFair (k t p : ℕ) (c : WeightedSubConn SubConn) : Type 0 where
    pub weighted : (neg_part c.weight ≡ 0) × (1 ≤ pos_part c.weight)
    pub balance :
        pos_part c.current_weight + t * p ≡ k * pos_part c.weight + neg_part c.current_weight
    pub behind : t * p < k * pos_part c.weight + t

  abbrev pub AllFair : ℕ → ℕ → ℕ → List ℕ → List (WeightedSubConn SubConn) → Type 0
  AllFair k t i h [] = Unit
  AllFair k t i h (c ∷ cs) = IsFair k t (count i h) c × AllFair k t (suc i) h cs

  -- Every weight is at least 1.
  abbrev pub AllWeighted : List (WeightedSubConn SubConn) → Type 0
  AllWeighted [] = Unit
  AllWeighted (c ∷ cs) = ((neg_part c.weight ≡ 0) × (1 ≤ pos_part c.weight)) × AllWeighted cs

  pub AllFair-AllWeighted :
      (k t i : ℕ) (h : List ℕ) (cs : List (WeightedSubConn SubConn))
      → AllFair k t i h cs
      → AllWeighted cs
  AllFair-AllWeighted k t i h [] f = tt
  AllFair-AllWeighted k t i h (c ∷ cs) f = (f.0.weighted, AllFair-AllWeighted k t (suc i) h cs f.1)

  pub tally-le :
      (k t i : ℕ) (h : List ℕ) (cs : List (WeightedSubConn SubConn))
      → AllFair k t i h cs
      → t * tally i cs h ≤ k * total_weight cs + t * length cs
  tally-le k t i h [] f = omega arith
  tally-le k t i h (c ∷ cs) f = omega (arith, f.0.behind, tally-le k t (suc i) h cs f.1)

  abbrev pub AllAtMost : ℕ → List (WeightedSubConn SubConn) → Type 0
  AllAtMost b [] = Unit
  AllAtMost b (c ∷ cs) = (pos_part c.current_weight ≤ b) × AllAtMost b cs

  -- What one connection is owed the others have had too much of.
  pub AllFair-AllAtMost :
      (b k t i : ℕ) (h : List ℕ) (cs : List (WeightedSubConn SubConn))
      → k * total_weight cs + t * length cs ≤ t * tally i cs h + b
      → AllFair k t i h cs
      → AllAtMost b cs
  AllFair-AllAtMost b k t i h [] big f = tt
  AllFair-AllAtMost b k t i h (c ∷ cs) big f = (
    omega (arith, f.0.balance, parts_disjoint c.current_weight, tally-le k t (suc i) h cs f.1),
    AllFair-AllAtMost b k t (suc i) h cs (omega (arith, f.0.behind)) f.1,
  )

  -- The first half of a pick raises every current weight by the weight, without overflow.
  pub raise-IsFair :
      (b k t p : ℕ) (c : WeightedSubConn SubConn)
      → b + t ≤ max_int
      → pos_part c.weight ≤ t
      → pos_part c.current_weight ≤ b
      → IsFair k t p c
      → IsFair (suc k) t p (raise c)
  unfolding raise
  raise-IsFair b k t p c big w top f =
      let sum =
        int_add_parts c.current_weight c.weight (omega (arith, f.weighted))
          (omega (arith, f.weighted, f.balance, f.behind, parts_disjoint c.current_weight)) in
      record {
        weighted = f.weighted;
        balance = omega (arith, sum, f.balance, f.weighted);
        behind = omega (arith, f.behind);
      }

  pub AllFair-raise :
      (b k t i : ℕ) (h : List ℕ) (cs : List (WeightedSubConn SubConn))
      → b + t ≤ max_int
      → total_weight cs ≤ t
      → AllAtMost b cs
      → AllFair k t i h cs
      → AllFair (suc k) t i h (map raise cs)
  AllFair-raise b k t i h [] big w top f = tt
  AllFair-raise b k t i h (c ∷ cs) big w top f = (
    raise-IsFair b k t (count i h) c big (omega arith) top.0 f.0,
    AllFair-raise b k t (suc i) h cs big (omega arith) top.1 f.1,
  )
