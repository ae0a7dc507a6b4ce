-- ===== src/Clients/Pool/Places.antt =====
-- Places in lists of clients.
use quickgo.Prelude.{
  ℕ, zero, suc, ◌+◌, ◌≤◌, ◌<◌, ◌≡◌, refl, ap, ◌∙◌, List, [], ◌∷◌, ◌++◌, arith, length, get_elem?,
  take, drop,
}

pub drop-length : (xs : List ℕ) (n : ℕ) → length xs ≤ n → drop n xs ≡ []
drop-length [] zero h = refl
drop-length [] (suc n) h = refl
drop-length (x ∷ xs) zero h = absurd (omega arith)
drop-length (x ∷ xs) (suc n) h = drop-length xs n (omega arith)

pub get_elem?-drop : (r k : ℕ) (xs : List ℕ) → get_elem? (drop r xs) k ≡ get_elem? xs (r + k)
get_elem?-drop zero k xs = let shift : k ≡ zero + k = omega arith in ap (get_elem? xs) shift
get_elem?-drop (suc r) k [] = refl
get_elem?-drop (suc r) k (x ∷ xs) =
    let shift : suc (r + k) ≡ suc r + k = omega arith in
    get_elem?-drop r k xs ∙ ap (get_elem? (x ∷ xs)) shift

pub get_elem?-append_left :
    (k : ℕ) (xs ys : List ℕ) → k < length xs → get_elem? (xs ++ ys) k ≡ get_elem? xs k
get_elem?-append_left k [] ys h = absurd (omega arith)
get_elem?-append_left zero (x ∷ xs) ys h = refl
get_elem?-append_left (suc k) (x ∷ xs) ys h = get_elem?-append_left k xs ys (omega arith)

pub get_elem?-append_right :
    (k : ℕ) (xs ys : List ℕ) → get_elem? (xs ++ ys) (length xs + k) ≡ get_elem? ys k
get_elem?-append_right k [] ys = let shift : zero + k ≡ k = omega arith in ap (get_elem? ys) shift
get_elem?-append_right k (x ∷ xs) ys =
    let shift : suc (length xs) + k ≡ suc (length xs + k) = omega arith in
    ap (get_elem? (x ∷ (xs ++ ys))) shift ∙ get_elem?-append_right k xs ys

pub get_elem?-take : (r k : ℕ) (xs : List ℕ) → k < r → get_elem? (take r xs) k ≡ get_elem? xs k
get_elem?-take zero k xs h = absurd (omega arith)
get_elem?-take (suc r) k [] h = refl
get_elem?-take (suc r) zero (x ∷ xs) h = refl
get_elem?-take (suc r) (suc k) (x ∷ xs) h = get_elem?-take r k xs (omega arith)
