-- ===== src/Framework/Starting.antt =====
-- framework.go: Init and Start keep the balance of openings and closings.
use quickgo.Prelude.{
  ◌≡◌, refl, Bool, true, false, not, Option, none, some, List, [], ◌∷◌, ◌++◌, String, if◌then◌else◌,
  arith, if_both,
}
use quickgo.Framework.{
  Part, grpc_server, grpc_client, http_server, Target, part, component, Env, Call,
  health_checks_started, Framework, Outcome,
}
use quickgo.Framework.Steps.{entries}
use quickgo.Framework.Operations.{
  is_nil, init_all, finish_init, init, start_parts, start_components, start_all, start_failed_stop,
  start,
}
use quickgo.Framework.Balance.{openings, closings, Balances, openings-append, closings-append}
use quickgo.Framework.Validity.{IsNamed, IsValid}
use quickgo.Framework.Initializing.{IsEmpty, init_all-Opens}
use quickgo.Framework.Lifecycle.{Keeps, Keeps-refl, Balances-before, stop-Keeps, finish_init-Keeps}

-- calls that neither open nor close
abbrev IsNeutral : List Call → Type 0
IsNeutral calls = (t : Target) → (openings t calls ≡ 0) × (closings t calls ≡ 0)

IsNeutral-append : (xs ys : List Call) → IsNeutral xs → IsNeutral ys → IsNeutral (xs ++ ys)
IsNeutral-append xs ys h k t =
    omega (arith, openings-append t xs ys, closings-append t xs ys, h t, k t)

module _ {E : Type 0} (env : Env E) where
  start_parts-IsNeutral :
      (ps : List Part) (parts : Part → Bool) → IsNeutral (start_parts env ps parts).0
  unfolding start_parts
  start_parts-IsNeutral [] parts = λ t. omega arith
  start_parts-IsNeutral (p ∷ ps) parts =
      by_answer (parts p) refl (env.on_start (part p)) refl (start_parts-IsNeutral ps parts)
    where
      by_answer :
          (b : Bool)
          → parts p ≡ b
          → (o : Option E) → env.on_start (part p) ≡ o
          → IsNeutral (start_parts env ps parts).0
          → IsNeutral (start_parts env (p ∷ ps) parts).0
      by_answer false e o e' h = rw (e, start_parts) h
      by_answer true e (some x) e' h = rw (e, e', start_parts) (λ t. omega arith)
      by_answer true e none e' h = rw (e, e', start_parts) (λ t. omega (arith, h t))

  start_components-IsNeutral : (ns : List String) → IsNeutral (start_components env ns).0
  unfolding start_components
  start_components-IsNeutral [] = λ t. omega arith
  start_components-IsNeutral (n ∷ ns) =
      by_answer (env.is_enabled n) refl (env.on_start (component n)) refl
        (start_components-IsNeutral ns)
    where
      by_answer :
          (b : Bool)
          → env.is_enabled n ≡ b
          → (o : Option E) → env.on_start (component n) ≡ o
          → IsNeutral (start_components env ns).0
          → IsNeutral (start_components env (n ∷ ns)).0
      by_answer false e o e' h = rw (e, start_components) h
      by_answer true e (some x) e' h = rw (e, e', start_components) (λ t. omega arith)
      by_answer true e none e' h = rw (e, e', start_components) (λ t. omega (arith, h t))

module _ {E C : Type 0} (env : Env E) where
  pub init-Keeps :
      (f : Framework C) → IsValid f → let (g, calls, errs) = init {E = E} env f in Keeps f calls g
  unfolding init
  init-Keeps f v =
      if_both (λ (o : Outcome E C). Keeps f o.1 o.0) f.initialized (λ i. Keeps-refl f v) once_more
    where
      f₀ : Framework C
      f₀ = record f { stopped = false; initializing = true }

      empty : f.initialized ≡ false → IsEmpty f₀
      empty i (part p) = v.down_empty i (part p)
      empty i (component n) = v.down_empty i (component n)

      once_more :
          f.initialized ≡ false
          → (let (g, calls, errs) = finish_init {E = E} env (init_all env f₀) in Keeps f calls g)
      once_more i =
          let n : IsNamed f₀ = record {
            once = v.named.once;
            registered = v.named.registered;
            known = v.named.known;
          } in
          let k =
            finish_init-Keeps env f₀ (init_all env f₀) refl v.not_stopping refl
              (init_all-Opens env f₀ n (empty i)) in
          record { balances = Balances-before f f₀ _ _ k.balances refl refl; valid = k.valid }

  start_all-IsNeutral : (f : Framework C) → IsNeutral (start_all {E = E} env f).0
  unfolding start_all
  start_all-IsNeutral f t =
      let ps = grpc_server ∷ http_server ∷ [] in
      let ns = entries f.components f.initialized_order in
      let parts = start_parts-IsNeutral env ps f.parts in
      let components = start_components-IsNeutral env ns in
      ground (arith, parts t, components t, IsNeutral-append _ _ parts components t)

  Keeps-after_neutral :
      (f g : Framework C) (xs ys : List Call) → IsNeutral xs → Keeps f ys g → Keeps f (xs ++ ys) g
  Keeps-after_neutral f g xs ys n k = record {
    balances =
        λ t. omega (arith, openings-append t xs ys, closings-append t xs ys, n t, k.balances t);
    valid = k.valid;
  }

  pub start-Keeps :
      (f : Framework C) → IsValid f → let (g, calls, errs) = start {E = E} env f in Keeps f calls g
  unfolding start start_failed_stop
  start-Keeps f v =
      if_both (λ (o : Outcome E C). Keeps f o.1 o.0) (not f.initialized) (λ i. Keeps-refl f v)
        (λ i.
          if_both (λ (o : Outcome E C). Keeps f o.1 o.0) f.started (λ s. Keeps-refl f v)
            (λ s.
              if_both (λ (o : Outcome E C). Keeps f o.1 o.0) (is_nil (start_all env f).1)
                (λ done. started_up i)
                (λ failed.
                  Keeps-after_neutral f _ _ _ (start_all-IsNeutral f)
                    (stop-Keeps env f v.named (ground (arith, v.stopped_down)) (ground arith)))))
    where
      calls : List Call
      calls = (start_all {E = E} env f).0

      health : List Call
      health = if f.parts grpc_client then health_checks_started ∷ [] else []

      neutral : IsNeutral (calls ++ health)
      neutral =
          IsNeutral-append calls health (start_all-IsNeutral f)
            (if_both IsNeutral (f.parts grpc_client) (λ g t. omega arith) (λ g t. omega arith))

      balanced : Balances f (calls ++ health) (record f { started = true })
      balanced (part p) = omega (arith, neutral (part p))
      balanced (component n) = omega (arith, neutral (component n))

      started_up :
          not f.initialized ≡ false → Keeps f (calls ++ health) (record f { started = true })
      started_up i = record {
        balances = balanced;
        valid = record {
          named = record {
            once = v.named.once;
            registered = v.named.registered;
            known = v.named.known;
          };
          not_initializing = v.not_initializing;
          not_stopping = v.not_stopping;
          started_initialized = λ h. ground arith;
          stopped_down = v.stopped_down;
          down_empty = λ h. absurd (ground arith);
        };
      }
