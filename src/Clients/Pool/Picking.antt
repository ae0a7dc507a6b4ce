-- ===== src/Clients/Pool/Picking.antt =====
-- grpc_client.go: which client `getClient` picks.
use native.Mathlib.Nat.{mod-lt, mod-eq_of_lt, mod-eq-sub-mod, mod-add-mod}
use quickgo.Prelude.{
  ltb, ltb→lt, inl, inr, Bool-cases, ℕ, zero, suc, ◌+◌, ◌%◌, ◌≤◌, ◌<◌, ◌≡◌, refl, ap, sym, ◌∙◌,
  Bool, true, false, Option, none, some, List, [], ◌∷◌, arith, length, length-append, length-take,
  length-drop, get_elem?, take, drop, ◌++◌, ◌-◌, if◌then◌else◌,
}
use quickgo.Clients.Pool.Places.{
  drop-length, get_elem?-drop, get_elem?-append_left, get_elem?-append_right, get_elem?-take,
}
use quickgo.Clients.Pool.{uint64, ClientPool, usable_at, or_next, scan, get_client_from, get_client}

-- A list from an index on, and then from its start to there.
abbrev pub rotate : ℕ → List ℕ → List ℕ
rotate r xs = drop r xs ++ take r xs

abbrev pub first_usable : (ℕ → Bool) → List ℕ → Option ℕ
first_usable usable [] = none
first_usable usable (x ∷ xs) =
    let rest = first_usable usable xs in if usable x then some x else rest

or_next-if :
    (b : Bool) (x : ℕ) (rest : Option ℕ)
    → (if b then some x else rest) ≡ or_next (if b then some x else none) rest
unfolding or_next
or_next-if true x rest = refl
or_next-if false x rest = refl

first_usable-drop :
    (usable : ℕ → Bool) (xs : List ℕ) (k : ℕ)
    → first_usable usable (drop k xs)
      ≡ or_next (usable_at usable xs k) (first_usable usable (drop (suc k) xs))
unfolding usable_at or_next
first_usable-drop usable [] zero = refl
first_usable-drop usable [] (suc k) = refl
first_usable-drop usable (x ∷ xs) zero = or_next-if (usable x) x (first_usable usable xs)
first_usable-drop usable (x ∷ xs) (suc k) = first_usable-drop usable xs k

rotate-nil : (r : ℕ) → rotate r [] ≡ []
rotate-nil zero = refl
rotate-nil (suc r) = refl

length-rotate : (xs : List ℕ) (r : ℕ) → length (rotate r xs) ≡ length xs
length-rotate xs r =
    omega (arith, length-append (drop r xs) (take r xs), length-drop r xs, length-take r xs)

ge_of_ltb : (a b : ℕ) → ltb a b ≡ false → b ≤ a
ge_of_ltb a b e = ground arith

by_place :
    (usable : ℕ → Bool) (xs ys : List ℕ) (i j : ℕ)
    → get_elem? ys j ≡ get_elem? xs i
    → usable_at usable xs i ≡ usable_at usable ys j
unfolding usable_at
by_place usable xs ys i j e =
    ap (λ o. elim o [ none ↦ none | some client ↦ if usable client then some client else none ])
      (sym e)

get_elem?-rotate_near :
    (r k : ℕ) (xs : List ℕ)
    → r + k < length xs
    → get_elem? (rotate r xs) k ≡ get_elem? xs ((r + k) % length xs)
get_elem?-rotate_near r k xs h =
    get_elem?-append_left k (drop r xs) (take r xs) (omega (arith, length-drop r xs))
    ∙ get_elem?-drop r k xs
    ∙ ap (get_elem? xs) (sym (mod-eq_of_lt h))

get_elem?-rotate_far :
    (r k : ℕ) (xs : List ℕ)
    → r < length xs
    → k < length xs
    → length xs ≤ r + k
    → get_elem? (rotate r xs) k ≡ get_elem? xs ((r + k) % length xs)
get_elem?-rotate_far r k xs hr hk far =
    let j = r + k - length xs in
    let place : k ≡ length (drop r xs) + j = omega (arith, length-drop r xs) in
    let small : j < length xs = omega arith in
    let wrapped : j ≡ (r + k) % length xs = sym (mod-eq-sub-mod far ∙ mod-eq_of_lt small) in
    let taken : j < r = omega arith in
    ap (get_elem? (rotate r xs)) place
    ∙ get_elem?-append_right j (drop r xs) (take r xs)
    ∙ get_elem?-take r j xs taken
    ∙ ap (get_elem? xs) wrapped

get_elem?-rotate :
    (r k : ℕ) (xs : List ℕ)
    → r < length xs
    → k < length xs
    → get_elem? (rotate r xs) k ≡ get_elem? xs ((r + k) % length xs)
get_elem?-rotate r k xs hr hk = elim (Bool-cases (ltb (r + k) (length xs))) [
  | inl e ↦ get_elem?-rotate_near r k xs (ltb→lt (r + k) (length xs) e)
  | inr e ↦ get_elem?-rotate_far r k xs hr hk (ge_of_ltb (r + k) (length xs) e)
]

scan_lem :
    (usable : ℕ → Bool) (xs : List ℕ) (start left offset : ℕ)
    → 0 < length xs
    → start + length xs ≤ uint64
    → offset + left ≡ length xs
    → scan usable xs start offset left
      ≡ first_usable usable (drop offset (rotate (start % length xs) xs))
unfolding scan
scan_lem usable xs start zero offset pos big sum = sym (
    ap (first_usable usable) (
      drop-length (rotate (start % length xs) xs) offset
        (omega (arith, sum, length-rotate xs (start % length xs)))))
scan_lem usable xs start (suc left) offset pos big sum =
    let r = start % length xs in
    let small : start + offset < uint64 = omega arith in
    let here : get_elem? (rotate r xs) offset
        ≡ get_elem? xs (((start + offset) % uint64) % length xs) =
      get_elem?-rotate r offset xs (mod-lt start pos) (omega arith)
      ∙ ap (get_elem? xs) (
          mod-add-mod start (length xs) offset
          ∙ ap (λ n. n % length xs) (sym (mod-eq_of_lt small))) in
    let rest = scan_lem usable xs start left (suc offset) pos big (omega arith) in
    (λ i. or_next (by_place usable xs (rotate r xs) _ offset here i) (rest i))
    ∙ sym (first_usable-drop usable (rotate r xs) offset)

-- `getClient` gives out the first usable client of the pool, from the index on and then from the start,
-- and none exactly if there is none. The index is at least as far from 2 ^ 64 as the pool is large.
pub get_client-first_usable :
    (usable : ℕ → Bool) (p : ClientPool)
    → p.index + length p.clients ≤ uint64
    → (get_client usable p).1 ≡ first_usable usable (rotate (p.index % length p.clients) p.clients)
unfolding get_client
get_client-first_usable usable p big = from p.index p.clients big
  where
    from :
        (index : ℕ) (clients : List ℕ)
        → index + length clients ≤ uint64
        → (get_client_from usable index clients).1
          ≡ first_usable usable (rotate (index % length clients) clients)
    from index [] big = sym (ap (first_usable usable) (rotate-nil (index % 0)))
    from index (c ∷ cs) big =
        scan_lem usable (c ∷ cs) index (length (c ∷ cs)) 0 (omega arith) big (omega arith)
