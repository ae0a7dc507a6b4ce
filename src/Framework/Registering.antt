-- ===== src/Framework/Registering.antt =====
-- framework.go: registering a component keeps the balance of openings and closings.
use quickgo.Prelude.{
  ◌≤◌, ◌≡◌, refl, ◌||◌, Option, none, some, [], ◌∷◌, ◌++◌, String, arith, Bool-cases, inl, inr,
  if_both,
}
use quickgo.Prelude.Dict.{lookup, insert, ◌is◌, lookup-insert, eq_of_is}
use quickgo.Framework.{part, component, Failure, Framework}
use quickgo.Framework.Operations.{register_component, add_component}
use quickgo.Framework.Balance.{count, Balances, count-append}
use quickgo.Framework.Validity.{IsValid}
use quickgo.Framework.Initializing.{IsEmpty}
use quickgo.Framework.Lifecycle.{Keeps, Keeps-refl}

module _ (E : Type 0) {C : Type 0} where
  add-Keeps :
      (o : Option C) (name : String) (c : C) (f : Framework C)
      → lookup name f.components ≡ o
      → IsValid f
      → Keeps f [] (add_component {E = E} o name c f).0
  unfolding add_component
  add-Keeps (some c') name c f e v = Keeps-refl f v
  add-Keeps none name c f e v =
      if_both (λ (o : Framework C × Option (Failure E)). Keeps f [] o.0)
        (f.initializing || f.initialized || f.started || f.stopping) (λ h. Keeps-refl f v)
        (λ h. record { balances = balanced; valid = valid })
    where
      g : Framework C
      g = record f {
        components = insert name c f.components;
        component_order = f.component_order ++ name ∷ [];
      }

      absent_name : count name f.component_order ≡ 0
      absent_name = v.named.registered name e

      once : (m : String) → count m g.component_order ≤ 1
      once m = elim (Bool-cases (name is m)) [
        | inl h ↦
            rw (← eq_of_is name m h)
              (ground (arith, absent_name, count-append name f.component_order (name ∷ [])))
        | inr h ↦ ground (arith, v.named.once m, count-append m f.component_order (name ∷ []))
      ]

      registered : (m : String) → lookup m g.components ≡ none → count m g.component_order ≡ 0
      registered m h = ground (
        arith,
        lookup-insert name m c f.components,
        v.named.registered m,
        count-append m f.component_order (name ∷ []),
      )

      valid : IsValid g
      valid = record {
        named = record {
          once = once;
          registered = registered;
          known = λ m. omega (arith, v.named.known m, count-append m f.component_order (name ∷ []));
        };
        not_initializing = v.not_initializing;
        not_stopping = v.not_stopping;
        started_initialized = v.started_initialized;
        stopped_down = v.stopped_down;
        down_empty = λ d. held_same (v.down_empty d);
      }
        where
          held_same : IsEmpty f → IsEmpty g
          held_same z (part p) = z (part p)
          held_same z (component n) = z (component n)

      balanced : Balances f [] g
      balanced (part p) = omega arith
      balanced (component n) = omega arith

  pub register-Keeps :
      (c : Option (String × C)) (f : Framework C)
      → IsValid f
      → Keeps f [] (register_component {E = E} c f).0
  unfolding register_component
  register-Keeps none f v = Keeps-refl f v
  register-Keeps (some (name, c)) f v =
      if_both (λ (o : Framework C × Option (Failure E)). Keeps f [] o.0) (name is "")
        (λ e. Keeps-refl f v) (λ e. add-Keeps (lookup name f.components) name c f refl v)
