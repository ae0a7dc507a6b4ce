-- ===== src/Prelude/Dict.antt =====
-- Go's `map[string]V` as an association list, in the order in which its keys first came.
use text.Mathlib.{Text.{◌==◌}, TextEquality.{eq_iff}, TextPositions.{eq_refl}}
use quickgo.Prelude.{
  ◌||◌, ◌≡◌, ◌≢◌, inl, inr, Bool, true, false, Option, none, some, List, [], ◌∷◌, String, arith,
  if◌then◌else◌, Bool-cases,
}

infix 50 ◌is◌
abbrev pub ◌is◌ : String → String → Bool
s is t = s == t

pub is_refl : (s : String) → (s is s) ≡ true
is_refl s = eq_refl s

pub is_of_ne : (s t : String) → s ≢ t → (s is t) ≡ false
is_of_ne s t h = elim (Bool-cases (s is t)) [ inl e ↦ absurd (h ((eq_iff s t).0 e)) | inr e ↦ e ]

pub eq_of_is : (s t : String) → (s is t) ≡ true → s ≡ t
eq_of_is s t h = (eq_iff s t).0 h

pub ne_of_is : (s t : String) → (s is t) ≡ false → s ≢ t
ne_of_is s t h e = cc ((eq_iff s t).1 e, h)

module _ {ℓ} {V : Type ℓ} where
  unfoldable pub insert : String → V → List (String × V) → List (String × V)
  insert name new [] = (name, new) ∷ []
  insert name new ((key, old) ∷ rest) =
      if key is name then (name, new) ∷ rest else (key, old) ∷ insert name new rest

  unfoldable pub lookup : String → List (String × V) → Option V
  lookup name [] = none
  lookup name ((key, value) ∷ rest) = if key is name then some value else lookup name rest

  pub lookup-insert_self :
      (name : String) (new : V) (dict : List (String × V))
      → lookup name (insert name new dict) ≡ some new
  unfolding lookup insert
  lookup-insert_self name new [] = ground (arith, is_refl name)
  lookup-insert_self name new ((key, old) ∷ rest) =
      ground (arith, eq_iff key name, is_refl name, lookup-insert_self name new rest)

  pub lookup-insert_ne :
      (name other : String) (new : V) (dict : List (String × V))
      → name ≢ other
      → lookup other (insert name new dict) ≡ lookup other dict
  unfolding lookup insert
  lookup-insert_ne name other new [] h = ground (arith, is_of_ne name other h)
  lookup-insert_ne name other new ((key, old) ∷ rest) h =
      ground (arith, eq_iff key name, is_of_ne name other h, lookup-insert_ne name other new rest h)

  pub lookup-insert :
      (name other : String) (new : V) (dict : List (String × V))
      → lookup other (insert name new dict)
        ≡ (if name is other then some new else lookup other dict)
  lookup-insert name other new dict = elim (Bool-cases (name is other)) [
    | inl e ↦ ground (arith, e, eq_of_is name other e, lookup-insert_self name new dict)
    | inr e ↦ ground (arith, e, lookup-insert_ne name other new dict (ne_of_is name other e))
  ]

  -- `delete(dict, name)`
  unfoldable pub erase : String → List (String × V) → List (String × V)
  erase name [] = []
  erase name ((key, value) ∷ rest) = if key is name then rest else (key, value) ∷ erase name rest

-- Is a name in a list of names? (`map[string]struct{}` as a set.)
abbrev pub is_mem : String → List String → Bool
is_mem k [] = false
is_mem k (j ∷ js) = j is k || is_mem k js
