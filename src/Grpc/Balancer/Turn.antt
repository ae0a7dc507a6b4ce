-- ===== src/Grpc/Balancer/Turn.antt =====
-- grpc/balancer.go: whole runs of picks.
use quickgo.Prelude.{
  ℕ, zero, suc, ◌+◌, ◌*◌, ◌≤◌, ◌≡◌, refl, ap, sym, subst, Option, none, some, List, [], ◌∷◌, map,
  arith, length,
}
use quickgo.Prelude.Int.{ℤ, pos, pos_part, neg_part}
use quickgo.Prelude.Int64.{max_int}
use quickgo.Grpc.Balancer.{WeightedSubConn, raise, raise_all, lower_at, settle_pick, pick_next}
use quickgo.Grpc.Balancer.Turns.{total_weight, tally, AllFair, AllFair-AllWeighted}
use quickgo.Grpc.Balancer.Weights.{
  SameWeights, SameWeights-refl, SameWeights-length, pick_next-SameWeights,
}
use quickgo.Grpc.Balancer.Selection.{
  AllBelow, At, raise_all-map, raise_all-total, raise_all-selects,
}
use quickgo.Grpc.Balancer.Fairness.{IsShared, pick-IsShared}

module _ {SubConn : Type 0} where
  settle_selected :
      (t k j : ℕ) (v : ℤ) (h : List ℕ) (cs : List (WeightedSubConn SubConn))
      (r : List (WeightedSubConn SubConn) × Option (ℕ × ℤ) × ℤ)
      → 1 ≤ t
      → t * length cs + t ≤ max_int
      → IsShared t k h cs
      → r.0 ≡ map raise cs
      → r.1 ≡ some (j, v)
      → (neg_part r.2 ≡ 0) × (pos_part r.2 ≡ t)
      → AllBelow v (map raise cs)
      → At v j (map raise cs)
      → ((settle_pick r).1 ≡ some j) × IsShared t (suc k) (j ∷ h) (settle_pick r).0
  unfolding settle_pick
  settle_selected t k j v h cs r one big s raised found total below a =
      let same : (map raise cs, some (j, v), r.2) ≡ r = λ i. (sym raised i, sym found i, r.2) in
      subst (λ q. ((settle_pick q).1 ≡ some j) × IsShared t (suc k) (j ∷ h) (settle_pick q).0) same
        (
          refl,
          subst (λ m. IsShared t (suc k) (m ∷ h) (lower_at j r.2 (map raise cs))) (omega arith)
              (pick-IsShared t k j v r.2 h cs one big s total.0 total.1 below a),
        )

  -- One `pickNext` of a picker that has connections selects one, and the picks stay shared.
  pick_next-IsShared :
      (t k : ℕ) (h : List ℕ) (cs : List (WeightedSubConn SubConn))
      → 1 ≤ t
      → t * length cs + t ≤ max_int
      → IsShared t k h cs
      → (j : ℕ) × ((pick_next cs).1 ≡ some j) × IsShared t (suc k) (j ∷ h) (pick_next cs).0
  unfolding pick_next
  pick_next-IsShared t k h [] one big s = absurd (omega (arith, s.total))
  pick_next-IsShared t k h (c ∷ cs) one big s =
      let (j, v, e, below, a) = raise_all-selects c cs in
      let sum =
        raise_all-total 0 none (pos 0) (c ∷ cs) (AllFair-AllWeighted k t 0 h (c ∷ cs) s.fair) refl
          (omega (arith, s.total)) in
      let (found, shared) =
        settle_selected t k j v h (c ∷ cs) (raise_all 0 none (pos 0) (c ∷ cs)) one big s
          (raise_all-map 0 none (pos 0) (c ∷ cs)) e (sum.0, omega (arith, sum.1, s.total)) below
          a in
      (j, found, shared)

push : Option ℕ → List ℕ → List ℕ
push none h = h
push (some j) h = j ∷ h

module _ {SubConn : Type 0} where
  -- The connections after `n` picks, and the indices picked, the latest first.
  unfoldable pub after : ℕ → List (WeightedSubConn SubConn) → List (WeightedSubConn SubConn)
  after zero cs = cs
  after (suc n) cs = (pick_next (after n cs)).0

  unfoldable pub history : ℕ → List (WeightedSubConn SubConn) → List ℕ
  unfolding push
  history zero cs = []
  history (suc n) cs = push (pick_next (after n cs)).1 (history n cs)

  -- A picker just built: its weights are at least 1, and all current weights are 0.
  abbrev pub IsNew : List (WeightedSubConn SubConn) → Type 0
  IsNew [] = Unit
  IsNew (c ∷ cs) =
      ((neg_part c.weight ≡ 0) × (1 ≤ pos_part c.weight) × (c.current_weight ≡ pos 0)) × IsNew cs

  IsNew-AllFair :
      (t i : ℕ) (cs : List (WeightedSubConn SubConn)) → 1 ≤ t → IsNew cs → AllFair 0 t i [] cs
  IsNew-AllFair t i [] one f = tt
  IsNew-AllFair t i (c ∷ cs) one f = (
    record {
      weighted = (f.0.0, f.0.1);
      balance = omega (arith, ap pos_part f.0.2, ap neg_part f.0.2);
      behind = omega arith;
    },
    IsNew-AllFair t (suc i) cs one f.1,
  )

  tally-nil : (i : ℕ) (cs : List (WeightedSubConn SubConn)) → tally i cs [] ≡ 0
  tally-nil i [] = refl
  tally-nil i (c ∷ cs) = omega (arith, tally-nil (suc i) cs)

  pub after-IsShared :
      (n : ℕ) (cs : List (WeightedSubConn SubConn))
      → 1 ≤ total_weight cs
      → total_weight cs * length cs + total_weight cs ≤ max_int
      → IsNew cs
      → IsShared (total_weight cs) n (history n cs) (after n cs) × SameWeights cs (after n cs)
  unfolding after history
  after-IsShared zero cs one big new = (
    record {
      fair = IsNew-AllFair (total_weight cs) 0 cs one new;
      total = refl;
      picks = tally-nil 0 cs;
    },
    SameWeights-refl cs,
  )
  after-IsShared (suc n) cs one big new =
      let (s, e) = after-IsShared n cs one big new in
      let width = ap (λ x. total_weight cs * x) (SameWeights-length cs (after n cs) e) in
      let (j, found, s') =
        pick_next-IsShared (total_weight cs) n (history n cs) (after n cs) one
          (omega (arith, width)) s in
      (
        subst
            (λ o.
              IsShared (total_weight cs) (suc n) (push o (history n cs)) (pick_next (after n cs)).0)
            (sym found) s',
        pick_next-SameWeights cs (after n cs) e,
      )
