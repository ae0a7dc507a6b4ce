-- ===== src/Grpc/Balancer/Weights.antt =====
-- grpc/balancer.go: picks change current weights only.
use quickgo.Prelude.{
  ℕ, zero, suc, ◌≡◌, refl, ap, sym, subst, Option, none, some, List, [], ◌∷◌, map, length,
}
use quickgo.Prelude.Int.{ℤ, pos}
use quickgo.Grpc.Balancer.{WeightedSubConn, raise, raise_all, lower_at, settle_pick, pick_next}
use quickgo.Grpc.Balancer.Selection.{raise_all-map}

module _ {SubConn : Type 0} where
  abbrev pub SameWeights : List (WeightedSubConn SubConn) → List (WeightedSubConn SubConn) → Type 0
  SameWeights [] [] = Unit
  SameWeights (c ∷ cs) (d ∷ ds) = (c.weight ≡ d.weight) × SameWeights cs ds
  SameWeights [] (d ∷ ds) = ⊥
  SameWeights (c ∷ cs) [] = ⊥

  pub SameWeights-refl : (cs : List (WeightedSubConn SubConn)) → SameWeights cs cs
  SameWeights-refl [] = tt
  SameWeights-refl (c ∷ cs) = (refl, SameWeights-refl cs)

  pub SameWeights-length :
      (cs ds : List (WeightedSubConn SubConn)) → SameWeights cs ds → length ds ≡ length cs
  SameWeights-length [] [] same = refl
  SameWeights-length (c ∷ cs) (d ∷ ds) same = ap suc (SameWeights-length cs ds same.1)
  SameWeights-length [] (d ∷ ds) same = elim same [ ]
  SameWeights-length (c ∷ cs) [] same = elim same [ ]

  raise-SameWeights :
      (cs ds : List (WeightedSubConn SubConn)) → SameWeights cs ds → SameWeights cs (map raise ds)
  unfolding raise
  raise-SameWeights [] [] same = tt
  raise-SameWeights (c ∷ cs) (d ∷ ds) same = (same.0, raise-SameWeights cs ds same.1)
  raise-SameWeights [] (d ∷ ds) same = elim same [ ]
  raise-SameWeights (c ∷ cs) [] same = elim same [ ]

  lower_at-SameWeights :
      (j : ℕ) (total : ℤ) (cs ds : List (WeightedSubConn SubConn))
      → SameWeights cs ds
      → SameWeights cs (lower_at j total ds)
  unfolding lower_at
  lower_at-SameWeights j total [] [] same = tt
  lower_at-SameWeights zero total (c ∷ cs) (d ∷ ds) same = same
  lower_at-SameWeights (suc j) total (c ∷ cs) (d ∷ ds) same =
      (same.0, lower_at-SameWeights j total cs ds same.1)
  lower_at-SameWeights j total [] (d ∷ ds) same = elim same [ ]
  lower_at-SameWeights j total (c ∷ cs) [] same = elim same [ ]

  settle_pick-SameWeights :
      (cs ds : List (WeightedSubConn SubConn)) (found : Option (ℕ × ℤ)) (total : ℤ)
      → SameWeights cs ds
      → SameWeights cs (settle_pick (ds, found, total)).0
  unfolding settle_pick
  settle_pick-SameWeights cs ds none total same = same
  settle_pick-SameWeights cs ds (some (j, v)) total same = lower_at-SameWeights j total cs ds same

  pub pick_next-SameWeights :
      (cs ds : List (WeightedSubConn SubConn)) → SameWeights cs ds → SameWeights cs (pick_next ds).0
  unfolding pick_next
  pick_next-SameWeights cs ds same =
      let r = raise_all 0 none (pos 0) ds in
      settle_pick-SameWeights cs r.0 r.1 r.2 (
        subst (SameWeights cs) (sym (raise_all-map 0 none (pos 0) ds))
          (raise-SameWeights cs ds same))
