-- ===== src/Grpc/Balancer/Fairness.antt =====
-- grpc/balancer.go: one `pickNext` keeps the picks fair.
use quickgo.Prelude.{
  ℕ, zero, suc, ◌+◌, ◌*◌, ◌≤◌, ◌<◌, ◌≡◌, refl, ap, ◌∙◌, subst, List, [], ◌∷◌, map, arith, length,
  length-map,
}
use quickgo.Prelude.Int.{ℤ, pos_part, neg_part, parts_disjoint}
use quickgo.Prelude.Int64.{max_int, int_sub, int_sub_parts}
use quickgo.Grpc.Balancer.{WeightedSubConn, raise, lower_at}
use quickgo.Grpc.Balancer.Turns.{
  count, total_weight, tally, IsFair, AllFair, AllAtMost, AllFair-AllAtMost, AllFair-raise,
}
use quickgo.Grpc.Balancer.Selection.{At, AllBelow}

module _ {SubConn : Type 0} where
  At-le :
      (b j : ℕ) (v : ℤ) (cs : List (WeightedSubConn SubConn))
      → AllAtMost b cs
      → At v j cs
      → pos_part v ≤ b
  At-le b j v [] m a = elim a [ ]
  At-le b zero v (c ∷ cs) m a = subst (λ x. pos_part x ≤ b) a m.0
  At-le b (suc j) v (c ∷ cs) m a = At-le b j v cs m.1 a

  -- If no connection is owed anything, then there have been as many picks as all have a claim to.
  all_paid :
      (k t i : ℕ) (v : ℤ) (h : List ℕ) (cs : List (WeightedSubConn SubConn))
      → pos_part v ≡ 0
      → AllBelow v cs
      → AllFair k t i h cs
      → k * total_weight cs ≤ t * tally i cs h
  all_paid k t i v h [] z below f = omega arith
  all_paid k t i v h (c ∷ cs) z below f = omega (
    arith,
    below.0,
    f.0.balance,
    parts_disjoint c.current_weight,
    all_paid k t (suc i) v h cs z below.1 f.1,
  )

  is_owed :
      (k t : ℕ) (v : ℤ) (h : List ℕ) (cs : List (WeightedSubConn SubConn))
      → t * tally 0 cs h < k * total_weight cs
      → AllBelow v cs
      → AllFair k t 0 h cs
      → 1 ≤ pos_part v
  is_owed k t v h cs less below f = at_least (pos_part v) refl
    where
      at_least : (n : ℕ) → pos_part v ≡ n → 1 ≤ n
      at_least zero z = absurd (omega (arith, all_paid k t 0 v h cs z below f))
      at_least (suc n) e = omega arith

  -- A pick of an index before those of a list does not count for it.
  skip-AllFair :
      (k t i m : ℕ) (h : List ℕ) (cs : List (WeightedSubConn SubConn))
      → m < i
      → AllFair k t i h cs
      → AllFair k t i (m ∷ h) cs
  skip-AllFair k t i m h [] l f = tt
  skip-AllFair k t i m h (c ∷ cs) l f = (
    subst (λ p. IsFair k t p c) (ground arith) f.0,
    skip-AllFair k t (suc i) m h cs (omega arith) f.1,
  )

  int_sub-IsFair :
      (k t p : ℕ) (v total : ℤ) (c : WeightedSubConn SubConn)
      → neg_part total ≡ 0
      → pos_part total ≡ t
      → t ≤ max_int
      → pos_part v ≤ max_int
      → 1 ≤ pos_part v
      → c.current_weight ≡ v
      → IsFair k t p c
      → IsFair k t (suc p) (record c { current_weight = int_sub c.current_weight total })
  int_sub-IsFair k t p v total c n e big bound owed a f =
      let same = ap pos_part a in
      let diff =
        int_sub_parts c.current_weight total (omega (arith, same))
          (omega (arith, same, parts_disjoint c.current_weight)) in
      record {
        weighted = f.weighted;
        balance = omega (arith, diff, f.balance);
        behind = omega (arith, same, parts_disjoint c.current_weight, f.balance);
      }

  -- The second half of a pick takes the total weight off a connection that is owed something.
  lower_at-AllFair :
      (k t i j : ℕ) (v total : ℤ) (h : List ℕ) (cs : List (WeightedSubConn SubConn))
      → neg_part total ≡ 0
      → pos_part total ≡ t
      → t ≤ max_int
      → pos_part v ≤ max_int
      → 1 ≤ pos_part v
      → At v j cs
      → AllFair k t i h cs
      → AllFair k t i ((i + j) ∷ h) (lower_at j total cs)
  unfolding lower_at
  lower_at-AllFair k t i j v total h [] n e big bound owed a f = tt
  lower_at-AllFair k t i zero v total h (c ∷ cs) n e big bound owed a f = (
    subst (λ p. IsFair k t p (record c { current_weight = int_sub c.current_weight total }))
        (ground arith) (int_sub-IsFair k t (count i h) v total c n e big bound owed a f.0),
    skip-AllFair k t (suc i) (i + 0) h cs (omega arith) f.1,
  )
  lower_at-AllFair k t i (suc j) v total h (c ∷ cs) n e big bound owed a f = (
    subst (λ p. IsFair k t p c) (ground arith) f.0,
    subst (λ m. AllFair k t (suc i) (m ∷ h) (lower_at j total cs)) (omega arith)
        (lower_at-AllFair k t (suc i) j v total h cs n e big bound owed a f.1),
  )

  total_weight-raise :
      (cs : List (WeightedSubConn SubConn)) → total_weight (map raise cs) ≡ total_weight cs
  unfolding raise
  total_weight-raise [] = refl
  total_weight-raise (c ∷ cs) = ap (λ n. pos_part c.weight + n) (total_weight-raise cs)

  tally-raise :
      (i : ℕ) (h : List ℕ) (cs : List (WeightedSubConn SubConn))
      → tally i (map raise cs) h ≡ tally i cs h
  tally-raise i h [] = refl
  tally-raise i h (c ∷ cs) = ap (λ n. count i h + n) (tally-raise (suc i) h cs)

  total_weight-lower_at :
      (j : ℕ) (total : ℤ) (cs : List (WeightedSubConn SubConn))
      → (total_weight (lower_at j total cs) ≡ total_weight cs)
        × (length (lower_at j total cs) ≡ length cs)
  unfolding lower_at
  total_weight-lower_at j total [] = (refl, refl)
  total_weight-lower_at zero total (c ∷ cs) = (refl, refl)
  total_weight-lower_at (suc j) total (c ∷ cs) =
      let (e, e') = total_weight-lower_at j total cs in (omega (arith, e), omega (arith, e'))

  tally-skip :
      (i m : ℕ) (h : List ℕ) (cs : List (WeightedSubConn SubConn))
      → m < i
      → tally i cs (m ∷ h) ≡ tally i cs h
  tally-skip i m h [] l = refl
  tally-skip i m h (c ∷ cs) l = ground (arith, tally-skip (suc i) m h cs (omega arith))

  -- A pick of one of the connections is one more pick of them all.
  tally-lower_at :
      (i j : ℕ) (v total : ℤ) (h : List ℕ) (cs : List (WeightedSubConn SubConn))
      → At v j cs
      → tally i (lower_at j total cs) ((i + j) ∷ h) ≡ suc (tally i cs h)
  unfolding lower_at
  tally-lower_at i j v total h [] a = elim a [ ]
  tally-lower_at i zero v total h (c ∷ cs) a =
      ground (arith, tally-skip (suc i) (i + 0) h cs (omega arith))
  tally-lower_at i (suc j) v total h (c ∷ cs) a =
      let shift : suc i + j ≡ i + suc j = omega arith in
      let rest =
        subst (λ m. tally (suc i) (lower_at j total cs) (m ∷ h) ≡ suc (tally (suc i) cs h)) shift
          (tally-lower_at (suc i) j v total h cs a) in
      ground (arith, rest)

  -- After the picks in a history: `t` is the total weight, and the history is as long as the number of picks.
  pub record IsShared (t k : ℕ) (h : List ℕ) (cs : List (WeightedSubConn SubConn)) : Type 0 where
    pub fair : AllFair k t 0 h cs
    pub total : total_weight cs ≡ t
    pub picks : tally 0 cs h ≡ k

  pub pick-IsShared :
      (t k j : ℕ) (v total : ℤ) (h : List ℕ) (cs : List (WeightedSubConn SubConn))
      → 1 ≤ t
      → t * length cs + t ≤ max_int
      → IsShared t k h cs
      → neg_part total ≡ 0
      → pos_part total ≡ t
      → AllBelow v (map raise cs)
      → At v j (map raise cs)
      → IsShared t (suc k) ((0 + j) ∷ h) (lower_at j total (map raise cs))
  pick-IsShared t k j v total h cs one big s n e below a =
      let all = ap (λ x. k * x) s.total in
      let paid = ap (λ x. t * x) s.picks in
      let all' = ap (λ x. suc k * x) (total_weight-raise cs ∙ s.total) in
      let paid' = ap (λ x. t * x) (tally-raise 0 h cs ∙ s.picks) in
      let width = ap (λ x. t * x) (length-map cs raise) in
      let top = AllFair-AllAtMost (t * length cs) k t 0 h cs (omega (arith, all, paid)) s.fair in
      let raised =
        AllFair-raise (t * length cs) k t 0 h cs big (omega (arith, s.total)) top s.fair in
      let top' =
        AllFair-AllAtMost (t * length cs + t) (suc k) t 0 h (map raise cs)
          (omega (arith, all', paid', width)) raised in
      let owed = is_owed (suc k) t v h (map raise cs) (omega (arith, all', paid')) below raised in
      record {
        fair =
            lower_at-AllFair (suc k) t 0 j v total h (map raise cs) n e (omega arith)
              (omega (arith, At-le _ j v (map raise cs) top' a)) owed a raised;
        total = omega (
          arith,
          (total_weight-lower_at j total (map raise cs)).0,
          total_weight-raise cs,
          s.total,
        );
        picks =
            tally-lower_at 0 j v total h (map raise cs) a ∙ ap suc (tally-raise 0 h cs ∙ s.picks);
      }
