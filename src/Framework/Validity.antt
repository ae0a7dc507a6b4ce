-- ===== src/Framework/Validity.antt =====
-- framework.go: what holds of a framework between two operations, and the lists of names in it.
use quickgo.Prelude.{
  ◌≤◌, ◌<◌, ◌≡◌, refl, true, false, none, List, [], ◌∷◌, String, if◌then◌else◌, reverse, arith,
  Bool-cases, Option-cases, ap, ◌∙◌, inl, inr, sym,
}
use mathlib.Core.List.{reverse-cons}
use quickgo.Prelude.Dict.{lookup, ◌is◌, is_mem, is_refl, eq_of_is}
use quickgo.Framework.{Target, part, component, Framework, FrameworkConfig, new_framework}
use quickgo.Framework.Steps.{entries}
use quickgo.Framework.Operations.{keep}
use quickgo.Framework.Balance.{count, held, count-append}

-- The names: each is registered once, and what is initialized is registered.
pub record IsNamed {C : Type 0} (f : Framework C) : Type 0 where
  pub once : (m : String) → count m f.component_order ≤ 1
  pub registered : (m : String) → lookup m f.components ≡ none → count m f.component_order ≡ 0
  pub known : (m : String) → count m f.initialized_order ≤ count m f.component_order

-- Between two operations a framework that is not initialized holds nothing: no part is open, and no
-- component is left to be stopped.
pub record IsValid {C : Type 0} (f : Framework C) : Type 0 where
  pub named : IsNamed f
  pub not_initializing : f.initializing ≡ false
  pub not_stopping : f.stopping ≡ false
  pub started_initialized : f.started ≡ true → f.initialized ≡ true
  pub stopped_down : f.stopped ≡ true → f.initialized ≡ false
  pub down_empty : f.initialized ≡ false → (t : Target) → held t f ≡ 0

pub new_framework-IsValid :
    {C : Type 0} (config : FrameworkConfig) → IsValid (new_framework {C = C} config)
unfolding new_framework
new_framework-IsValid {C} config = record {
  named = record { once = λ m. omega arith; registered = λ m h. refl; known = λ m. omega arith };
  not_initializing = refl;
  not_stopping = refl;
  started_initialized = λ h. cc;
  stopped_down = λ h. refl;
  down_empty = λ h. nothing_held;
}
  where
    nothing_held : (t : Target) → held {C = C} t (new_framework config) ≡ 0
    nothing_held (part p) = refl
    nothing_held (component n) = refl

pub count-reverse : (m : String) (ns : List String) → count m (reverse ns) ≡ count m ns
count-reverse m [] = refl
count-reverse m (n ∷ ns) =
    ap (count m) (reverse-cons n ns)
    ∙ omega (arith, count-append m (reverse ns) (n ∷ []), count-reverse m ns)

pub count-entries :
    {C : Type 0} (components : List (String × C)) (m : String) (ns : List String)
    → (lookup m components ≡ none → count m ns ≡ 0)
    → count m (entries components ns) ≡ count m ns
unfolding entries
count-entries components m [] h = refl
count-entries components m (n ∷ ns) h =
    let rest = count-entries components m ns (λ q. omega (arith, h q)) in
    elim (Option-cases (lookup n components)) [
      | inl e ↦ elim (Bool-cases (n is m)) [
        | inl q ↦
            absurd (ground (arith, h (ap (λ k. lookup k components) (sym (eq_of_is n m q)) ∙ e)))
        | inr q ↦ rw (e, entries, q) (omega (arith, rest))
      ]
      | inr (c, e) ↦ rw (e, entries) (omega (arith, rest))
    ]

pub count_of_mem : (m : String) (ns : List String) → is_mem m ns ≡ true → 0 < count m ns
count_of_mem m [] h = cc
count_of_mem m (n ∷ ns) h = ground (arith, count_of_mem m ns)

pub count_of_not_mem : (m : String) (ns : List String) → is_mem m ns ≡ false → count m ns ≡ 0
count_of_not_mem m [] h = refl
count_of_not_mem m (n ∷ ns) h = ground (arith, count_of_not_mem m ns)

pub count-keep :
    (m : String) (set ns : List String)
    → count m (keep set ns) ≡ (if is_mem m set then count m ns else 0)
count-keep m set [] = ground arith
count-keep m set (n ∷ ns) = elim (Bool-cases (n is m)) [
  | inl e ↦ rw (eq_of_is n m e) (ground (arith, count-keep m set ns, is_refl m))
  | inr e ↦ ground (arith, count-keep m set ns)
]
