-- ===== src/Resilience/SlidingWindow/Ascending.antt =====
-- Ascending lists of clock readings.
use quickgo.Prelude.{ℕ, zero, suc, ◌≤◌, List, [], ◌∷◌, ◌++◌, arith, replicate}

abbrev pub All {ℓ} : (ℕ → Type ℓ) → List ℕ → Type ℓ
All P [] = Unit
All P (t ∷ ts) = P t × All P ts

abbrev pub Ascending : List ℕ → Type 0
Ascending [] = Unit {0}
Ascending (t ∷ ts) = All (λ u. t ≤ u) ts × Ascending ts

pub All-append : (P : ℕ → Type 0) (xs ys : List ℕ) → All P xs → All P ys → All P (xs ++ ys)
All-append P [] ys h k = k
All-append P (x ∷ xs) ys h k = (h.0, All-append P xs ys h.1 k)

pub All-mono : (P Q : ℕ → Type 0) (xs : List ℕ) → ((x : ℕ) → P x → Q x) → All P xs → All Q xs
All-mono P Q [] f h = tt
All-mono P Q (x ∷ xs) f h = (f x h.0, All-mono P Q xs f h.1)

pub All-replicate : (P : ℕ → Type 0) (n x : ℕ) → P x → All P (replicate n x)
All-replicate P zero x h = tt
All-replicate P (suc n) x h = (h, All-replicate P n x h)

pub Ascending-append :
    (xs ys : List ℕ) (m : ℕ)
    → Ascending xs
    → All (λ x. x ≤ m) xs
    → Ascending ys
    → All (λ y. m ≤ y) ys
    → Ascending (xs ++ ys)
Ascending-append [] ys m ax bx ay by' = ay
Ascending-append (x ∷ xs) ys m ax bx ay by' = (
  All-append (λ y. x ≤ y) xs ys ax.0
      (All-mono (λ y. m ≤ y) (λ y. x ≤ y) ys (λ y h. omega arith) by'),
  Ascending-append xs ys m ax.1 bx.1 ay by',
)

pub Ascending-replicate : (n x : ℕ) → Ascending (replicate n x)
Ascending-replicate zero x = tt
Ascending-replicate (suc n) x =
    (All-replicate (λ u. x ≤ u) n x (omega arith), Ascending-replicate n x)
