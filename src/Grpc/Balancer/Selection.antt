-- ===== src/Grpc/Balancer/Selection.antt =====
-- grpc/balancer.go: `pickNext` selects a connection whose raised weight is the greatest.
use quickgo.Prelude.{
  ℕ, zero, suc, ◌+◌, ◌≤◌, ◌≡◌, refl, ap, sym, subst, ◌∙◌, ◌⊎◌, inl, inr, Option, none, some, List,
  [], ◌∷◌, map, arith, if_both,
}
use quickgo.Prelude.Int.{ℤ, pos, pos_part, neg_part, ◌≤ℤ◌, ltb_ℤ, parts_disjoint}
use quickgo.Prelude.Int64.{max_int, int_add, int_add_parts}
use quickgo.Grpc.Balancer.{WeightedSubConn, raise, choose, raise_all}
use quickgo.Grpc.Balancer.Turns.{total_weight, AllWeighted}

choose-cases :
    (i : ℕ) (w : ℤ) (s : ℕ × ℤ)
    → (s.1 ≤ℤ (choose i w (some s)).1)
      × (w ≤ℤ (choose i w (some s)).1)
      × ((choose i w (some s) ≡ s) ⊎ (choose i w (some s) ≡ (i, w)))
unfolding choose
choose-cases i w s =
    if_both (λ x. (s.1 ≤ℤ x.1) × (w ≤ℤ x.1) × ((x ≡ s) ⊎ (x ≡ (i, w)))) (ltb_ℤ s.1 w)
      (λ e. (ground arith, ground arith, inr refl)) (λ e. (ground arith, ground arith, inl refl))

module _ {SubConn : Type 0} where
  pub raise_all-map :
      (i : ℕ) (s : Option (ℕ × ℤ)) (total : ℤ) (cs : List (WeightedSubConn SubConn))
      → (raise_all i s total cs).0 ≡ map raise cs
  unfolding raise_all
  raise_all-map i s total [] = refl
  raise_all-map i s total (c ∷ cs) = ap (◌∷◌ (raise c)) (raise_all-map (suc i) _ _ cs)

  pub raise_all-total :
      (i : ℕ) (s : Option (ℕ × ℤ)) (total : ℤ) (cs : List (WeightedSubConn SubConn))
      → AllWeighted cs
      → neg_part total ≡ 0
      → pos_part total + total_weight cs ≤ max_int
      → (neg_part ((raise_all i s total cs).2) ≡ 0)
        × (pos_part ((raise_all i s total cs).2) ≡ pos_part total + total_weight cs)
  unfolding raise_all
  raise_all-total i s total [] w n big = (n, omega arith)
  raise_all-total i s total (c ∷ cs) w n big =
      let sum = int_add_parts total c.weight (omega arith) (omega (arith, w.0)) in
      let (n', sum') =
        raise_all-total (suc i) _ (int_add total c.weight) cs w.1
          (omega (arith, sum, parts_disjoint (int_add total c.weight), w.0))
          (omega (arith, sum, parts_disjoint (int_add total c.weight), w.0)) in
      (n', omega (arith, sum, sum', w.0, parts_disjoint (int_add total c.weight)))

  -- The connection at an index has a given current weight.
  abbrev pub At : ℤ → ℕ → List (WeightedSubConn SubConn) → Type 0
  At v j [] = ⊥
  At v zero (c ∷ cs) = c.current_weight ≡ v
  At v (suc j) (c ∷ cs) = At v j cs

  -- No current weight is above a given one.
  abbrev pub AllBelow : ℤ → List (WeightedSubConn SubConn) → Type 0
  AllBelow v [] = Unit
  AllBelow v (c ∷ cs) = (c.current_weight ≤ℤ v) × AllBelow v cs

  -- What the loop selects from `s` and the connections from index `i` on: a greatest of these.
  pub record Selects (i : ℕ) (s found : ℕ × ℤ) (cs : List (WeightedSubConn SubConn)) : Type 0 where
    pub above : s.1 ≤ℤ found.1
    pub greatest : AllBelow found.1 cs
    pub place : (found ≡ s) ⊎ ((j : ℕ) × (found.0 ≡ i + j) × At found.1 j cs)

  place_of :
      (i : ℕ) (s chosen found : ℕ × ℤ) (c : WeightedSubConn SubConn)
      (cs : List (WeightedSubConn SubConn))
      → (chosen ≡ s) ⊎ (chosen ≡ (i, c.current_weight))
      → (found ≡ chosen) ⊎ ((j : ℕ) × (found.0 ≡ suc i + j) × At found.1 j cs)
      → (found ≡ s) ⊎ ((j : ℕ) × (found.0 ≡ i + j) × At found.1 j (c ∷ cs))
  place_of i s chosen found c cs (inl e) (inl f) = inl (f ∙ e)
  place_of i s chosen found c cs (inr e) (inl f) =
      inr (0, omega (arith, ap (λ x. x.0) (f ∙ e)), sym (ap (λ x. x.1) (f ∙ e)))
  place_of i s chosen found c cs _ (inr (j, e, a)) = inr (suc j, omega (arith, e), a)

  pub raise_all-Selects :
      (i : ℕ) (s : ℕ × ℤ) (total : ℤ) (cs : List (WeightedSubConn SubConn))
      → (found : ℕ × ℤ) × ((raise_all i (some s) total cs).1 ≡ some found)
        × Selects i s found (map raise cs)
  unfolding raise_all
  raise_all-Selects i s total [] =
      (s, refl, record { above = omega arith; greatest = tt; place = inl refl })
  raise_all-Selects i s total (c ∷ cs) =
      let (from, here, which) = choose-cases i (raise c).current_weight s in
      let (found, e, rest) = raise_all-Selects (suc i) _ (int_add total c.weight) cs in
      (
        found,
        e,
        record {
          above = omega (arith, from, rest.above);
          greatest = (omega (arith, here, rest.above), rest.greatest);
          place = place_of i s _ found (raise c) (map raise cs) which rest.place;
        },
      )

  -- The loop from its start selects one of the connections, and none has a greater weight.
  pub raise_all-selects :
      (c : WeightedSubConn SubConn) (cs : List (WeightedSubConn SubConn))
      → (j : ℕ) × (v : ℤ) × ((raise_all 0 none (pos 0) (c ∷ cs)).1 ≡ some (j, v))
        × AllBelow v (map raise (c ∷ cs))
        × At v j (map raise (c ∷ cs))
  unfolding raise_all choose
  raise_all-selects c cs =
      let w = (raise c).current_weight in
      let (found, e, s) = raise_all-Selects 1 (0, w) (int_add (pos 0) c.weight) cs in
      (found.0, found.1, e, (s.above, s.greatest), at found s.place)
    where
      at :
          (found : ℕ × ℤ)
          → (found ≡ (0, (raise c).current_weight))
            ⊎ ((j : ℕ) × (found.0 ≡ 1 + j) × At found.1 j (map raise cs))
          → At found.1 found.0 (map raise (c ∷ cs))
      at found (inl e) = subst (λ x. At x.1 x.0 (map raise (c ∷ cs))) (sym e) refl
      at found (inr (j, e, a)) =
          let same : suc j ≡ found.0 = omega (arith, e) in
          subst (λ x. At found.1 x (map raise (c ∷ cs))) same a
