-- ===== src/Framework/Lifecycle.antt =====
-- framework.go: runs of the framework's operations, in the order in which they take its locks.
use quickgo.Prelude.{
  ℕ, ◌≡◌, refl, Bool, true, false, not, ◌||◌, List, [], ◌∷◌, if◌then◌else◌, arith, ap, ◌∙◌, sym,
  ◌⊎◌, inl, inr, subst,
}
use quickgo.Framework.{Part, part, component, Env, Call, Framework, Outcome}
use quickgo.Framework.Operations.{stop_parts, stop, stop_framework, finish_init}
use quickgo.Framework.Balance.{count, Balances, Balances-append}
use quickgo.Framework.Validity.{IsNamed, IsValid}
use quickgo.Framework.Stopping.{stop_parts-Balances, stop_parts-IsValid}
use quickgo.Framework.Initializing.{Opens, IsEmpty}

-- An operation that keeps a framework valid and balances.
pub record Keeps {C : Type 0} (f : Framework C) (calls : List Call) (g : Framework C) : Type 0 where
  pub balances : Balances f calls g
  pub valid : IsValid g

module _ {C : Type 0} where
  pub Keeps-refl : (f : Framework C) → IsValid f → Keeps f [] f
  Keeps-refl f v = record { balances = λ t. omega arith; valid = v }

  -- flags that do not count as held
  Balances-after :
      (f g h : Framework C) (calls : List Call)
      → Balances f calls g
      → h.parts ≡ g.parts
      → h.initialized_order ≡ g.initialized_order
      → Balances f calls h
  Balances-after f g h calls b p i (part q) =
      omega (arith, b (part q), ap {B = ℕ} (λ (k : Part → Bool). if k q then 1 else 0) p)
  Balances-after f g h calls b p i (component n) = omega (arith, b (component n), ap (count n) i)

  pub Balances-before :
      (f g h : Framework C) (calls : List Call)
      → Balances g calls h
      → f.parts ≡ g.parts
      → f.initialized_order ≡ g.initialized_order
      → Balances f calls h
  Balances-before f g h calls b p i (part q) =
      omega (arith, b (part q), ap {B = ℕ} (λ (k : Part → Bool). if k q then 1 else 0) p)
  Balances-before f g h calls b p i (component n) = omega (arith, b (component n), ap (count n) i)

if_same {ℓ} : {A : Type ℓ} (b : Bool) (x : A) → (if b then x else x) ≡ x
if_same true x = refl
if_same false x = refl

stop_cases :
    {C : Type 0} (f : Framework C)
    → ((f.stopped ≡ true) ⊎ ((f.initializing || f.initialized || f.started) ≡ false))
      ⊎ ((f.stopped ≡ false) × ((f.initializing || f.initialized || f.started) ≡ true))
stop_cases f = ground arith

module _ {E C : Type 0} (env : Env E) where
  stop_runs :
      (f : Framework C)
      → f.stopped ≡ false
      → (f.initializing || f.initialized || f.started) ≡ true
      → stop {E = E} env f ≡ stop_parts env f
  unfolding stop
  stop_runs f s a =
      let runs : (f.stopped || not (f.initializing || f.initialized || f.started)) ≡ false =
        ground arith in
      ap (λ (b : Bool). if b then (f, [], []) else stop_parts env f) runs

  stop_framework_runs :
      (f : Framework C)
      → f.stopped ≡ false
      → (f.initializing || f.initialized || f.started) ≡ true
      → stop_framework {E = E} env f ≡ stop_parts env f
  unfolding stop_framework
  stop_framework_runs f s a =
      ap
        (λ (b : Bool).
          if b
          then (f, [], [])
          else if not (f.initializing || f.initialized || f.started)
          then (f, [], [])
          else stop env f)
        s
      ∙ ap (λ (b : Bool). if not b then (f, [], []) else stop env f) a
      ∙ stop_runs f s a

  stop_framework_idle :
      (f : Framework C)
      → (f.stopped ≡ true) ⊎ ((f.initializing || f.initialized || f.started) ≡ false)
      → stop_framework {E = E} env f ≡ (f, [], [])
  unfolding stop_framework
  stop_framework_idle f (inl s) =
      ap
        (λ (b : Bool).
          if b
          then (f, [], [])
          else if not (f.initializing || f.initialized || f.started)
          then (f, [], [])
          else stop env f)
        s
  stop_framework_idle f (inr a) =
      ap
        (λ (b : Bool). if f.stopped then (f, [], []) else if not b then (f, [], []) else stop env f)
        a
      ∙ if_same f.stopped (f, [], [])

  pub stop-Keeps :
      (f : Framework C)
      → IsNamed f
      → (f.stopped ≡ false)
      → (f.initializing || f.initialized || f.started) ≡ true
      → let (g, calls, errs) = stop {E = E} env f in Keeps f calls g
  stop-Keeps f n s a =
      subst (λ (o : Outcome E C). Keeps f o.1 o.0) (sym (stop_runs f s a))
        (record { balances = stop_parts-Balances env f n; valid = stop_parts-IsValid env f n })

  pub stop_framework-Keeps :
      (f : Framework C)
      → IsValid f
      → let (g, calls, errs) = stop_framework {E = E} env f in Keeps f calls g
  stop_framework-Keeps f v = elim (stop_cases f) [
    | inl idle ↦
        subst (λ (o : Outcome E C). Keeps f o.1 o.0) (sym (stop_framework_idle f idle))
          (Keeps-refl f v)
    | inr (s, a) ↦
        subst (λ (o : Outcome E C). Keeps f o.1 o.0) (sym (stop_framework_runs f s a))
          (record {
            balances = stop_parts-Balances env f v.named;
            valid = stop_parts-IsValid env f v.named;
          })
  ]

  pub finish_init-Keeps :
      (f : Framework C) (o : Outcome E C)
      → f.stopped ≡ false
      → f.stopping ≡ false
      → f.initializing ≡ true
      → Opens f o.1 o.0
      → let (g, calls, errs) = finish_init env o in Keeps f calls g
  unfolding finish_init
  finish_init-Keeps f (g, calls, []) s p i o = record {
    balances = Balances-after f g _ calls o.balances refl refl;
    valid = record {
      named = record {
        once = o.named.once;
        registered = o.named.registered;
        known = o.named.known;
      };
      not_initializing = refl;
      not_stopping = o.stopping ∙ p;
      started_initialized = λ h. refl;
      stopped_down = λ h. cc (o.stopped, s);
      down_empty = λ h. cc;
    };
  }
  finish_init-Keeps f (g, calls, e ∷ errs) s p i o =
      let k = stop-Keeps g o.named (o.stopped ∙ s) (ground (arith, o.initializing)) in
      let h = (stop {E = E} env g).0 in
      record {
        balances =
            Balances-append f g _ calls _ o.balances
              (Balances-after g h (record h { initializing = false }) _ k.balances refl refl);
        valid = record {
          named = record {
            once = k.valid.named.once;
            registered = k.valid.named.registered;
            known = k.valid.named.known;
          };
          not_initializing = refl;
          not_stopping = k.valid.not_stopping;
          started_initialized = k.valid.started_initialized;
          stopped_down = k.valid.stopped_down;
          down_empty = λ d. not_held h (k.valid.down_empty d);
        };
      }
    where
      not_held : (h : Framework C) → IsEmpty h → IsEmpty (record h { initializing = false })
      not_held h z (part q) = z (part q)
      not_held h z (component n) = z (component n)
