-- ===== src/Prelude/Counts.antt =====
-- Counts: of what holds once, and of what is counted in the members of a list.
use quickgo.Prelude.{
  ℕ, zero, suc, ◌+◌, ◌≡◌, ◌==◌, ap, Bool, true, false, some, List, [], ◌∷◌, ◌++◌, arith, get_elem?,
  set,
}

abbrev pub one_if : Bool → ℕ
one_if true = 1
one_if false = 0

abbrev pub times {ℓ} : {A : Type ℓ} → (A → ℕ) → List A → ℕ
times f [] = 0
times f (c ∷ cs) = f c + times f cs

pub times-append {ℓ} :
    {A : Type ℓ} (f : A → ℕ) (xs ys : List A) → times f (xs ++ ys) ≡ times f xs + times f ys
times-append f [] ys = omega arith
times-append f (x ∷ xs) ys = omega (arith, times-append f xs ys)

-- How often a number is in a list
abbrev pub copies : ℕ → List ℕ → ℕ
copies i = times (λ j. one_if (j == i))

pub times-set {ℓ} :
    {A : Type ℓ} (f : A → ℕ) (xs : List A) (k : ℕ) (x y : A)
    → get_elem? xs k ≡ some x
    → times f (set xs k y) + f x ≡ times f xs + f y
times-set f [] k x y e = absurd (cc e)
times-set f (z ∷ xs) zero x y e = let same : z ≡ x = cc e in omega (arith, ap f same)
times-set f (z ∷ xs) (suc k) x y e = omega (arith, times-set f xs k x y e)
