-- ===== src/Framework/Initializing.antt =====
-- framework.go: `Init` as a whole, with its roll-back.
use quickgo.Prelude.{
  ◌≡◌, refl, Bool, true, false, ◌||◌, List, [], ◌∷◌, ◌++◌, String, arith, ap, ◌∙◌,
}
use quickgo.Framework.{
  Part, tracing, logger, grpc_server, grpc_client, http_server, gorm, mongodb, redis, Target, part,
  component, Env, Call, Framework, first_parts, other_parts, Outcome, and_then,
}
use quickgo.Framework.Steps.{entries, init_parts, init_components}
use quickgo.Framework.Operations.{is_nil, init_all}
use quickgo.Framework.Balance.{count, held, Balances, Balances-append}
use quickgo.Framework.Balance.Loops.{
  Absent, Distinct, init_parts-Balances, init_components-Balances,
}
use quickgo.Framework.Validity.{IsNamed, count-entries}
use quickgo.Framework.Opening.{init_parts-same, init_parts-unlisted, init_components-same}

-- The calls of a part of `Init` lead from `f` to `g`.
pub record Opens {C : Type 0} (f : Framework C) (calls : List Call) (g : Framework C) : Type 0 where
  pub balances : Balances f calls g
  pub named : IsNamed g
  pub initializing : g.initializing ≡ f.initializing
  pub stopping : g.stopping ≡ f.stopping
  pub initialized : g.initialized ≡ f.initialized
  pub started : g.started ≡ f.started
  pub stopped : g.stopped ≡ f.stopped

-- nothing is held, by the counts
abbrev pub IsEmpty : {C : Type 0} → Framework C → Type 0
IsEmpty f = (t : Target) → held t f ≡ 0

module _ {C : Type 0} where
  Opens-append :
      (f g h : Framework C) (xs ys : List Call) → Opens f xs g → Opens g ys h → Opens f (xs ++ ys) h
  Opens-append f g h xs ys a b = record {
    balances = Balances-append f g h xs ys a.balances b.balances;
    named = b.named;
    initializing = b.initializing ∙ a.initializing;
    stopping = b.stopping ∙ a.stopping;
    initialized = b.initialized ∙ a.initialized;
    started = b.started ∙ a.started;
    stopped = b.stopped ∙ a.stopped;
  }

  absent : (f : Framework C) → IsEmpty f → (p : Part) → f.parts p ≡ false
  absent f h p = ground (arith, h (part p))

module _ {E C : Type 0} (env : Env E) where
  abbrev OpeningOut : Framework C → Outcome E C → Type 0
  OpeningOut f o = Opens f o.1 o.0

  and_then-Opens :
      (f : Framework C) (o : Outcome E C) (k : Framework C → Outcome E C)
      → OpeningOut f o
      → (is_nil o.2 ≡ true → OpeningOut o.0 (k o.0))
      → OpeningOut f (and_then o k)
  and_then-Opens f (g, calls, []) k a b = Opens-append f g (k g).0 calls (k g).1 a (b refl)
  and_then-Opens f (g, calls, e ∷ errs) k a b = a

  init_parts-Opens :
      (ps : List Part) (f : Framework C)
      → IsNamed f
      → Distinct ps
      → Absent f.parts ps
      → OpeningOut f (init_parts env ps f)
  init_parts-Opens ps f n d a =
      let same = init_parts-same env ps f in
      record {
        balances = init_parts-Balances env ps f d a;
        named = rw same (record { once = n.once; registered = n.registered; known = n.known });
        initializing = ap (λ g. g.initializing) same;
        stopping = ap (λ g. g.stopping) same;
        initialized = ap (λ g. g.initialized) same;
        started = ap (λ g. g.started) same;
        stopped = ap (λ g. g.stopped) same;
      }

  init_components-Opens :
      (f : Framework C)
      → IsNamed f
      → ((m : String) → count m f.initialized_order ≡ 0)
      → OpeningOut f (init_components env (entries f.components f.component_order) f)
  init_components-Opens f n z =
      let ns = entries f.components f.component_order in
      let (same, few) = init_components-same env ns f in
      record {
        balances = init_components-Balances env ns f;
        named = rw same (record {
          once = n.once;
          registered = n.registered;
          known = λ m.
              omega (
                arith,
                few m,
                z m,
                count-entries f.components m f.component_order (n.registered m),
              );
        });
        initializing = ap (λ g. g.initializing) same;
        stopping = ap (λ g. g.stopping) same;
        initialized = ap (λ g. g.initialized) same;
        started = ap (λ g. g.started) same;
        stopped = ap (λ g. g.stopped) same;
      }

  and_then-keeps :
      (Q : Framework C → Type 0) (o : Outcome E C) (k : Framework C → Outcome E C)
      → Q o.0
      → ((g : Framework C) → Q g → Q (k g).0)
      → Q (and_then o k).0
  and_then-keeps Q (g, calls, []) k a b = b g a
  and_then-keeps Q (g, calls, e ∷ errs) k a b = a

  Opens-metrics :
      (f : Framework C) (b : Bool) (calls : List Call) (g : Framework C)
      → Opens (record f { metrics = b }) calls g
      → Opens f calls g
  Opens-metrics f b calls g o = record {
    balances = by_target;
    named = o.named;
    initializing = o.initializing;
    stopping = o.stopping;
    initialized = o.initialized;
    started = o.started;
    stopped = o.stopped;
  }
    where
      by_target : Balances f calls g
      by_target (part p) = o.balances (part p)
      by_target (component n) = o.balances (component n)

  -- the parts, with the metrics between them
  abbrev parts_step : Framework C → Outcome E C
  parts_step f₁ =
      init_parts env other_parts (record f₁ { metrics = f₁.config.metrics || f₁.metrics })

  parts_all-Opens :
      (f : Framework C)
      → IsNamed f
      → IsEmpty f
      → OpeningOut f (and_then (init_parts env first_parts f) parts_step)
  parts_all-Opens f n z =
      let a = absent f z in
      let first = init_parts-Opens first_parts f n (ground arith) (a tracing, (a logger, tt)) in
      let f₁ = (init_parts {E = E} env first_parts f).0 in
      let b = λ (q : Part). init_parts-unlisted env first_parts f q in
      and_then-Opens f (init_parts env first_parts f) parts_step first (λ done.
        Opens-metrics f₁ _ _ _ (
          init_parts-Opens other_parts (record f₁ { metrics = f₁.config.metrics || f₁.metrics })
            (record {
              once = first.named.once;
              registered = first.named.registered;
              known = first.named.known;
            })
            (ground arith)
            (ground (
              arith,
              b grpc_server,
              a grpc_server,
              b grpc_client,
              a grpc_client,
              b http_server,
              a http_server,
              b gorm,
              a gorm,
              b mongodb,
              a mongodb,
              b redis,
              a redis,
            ))))

  pub init_all-Opens : (f : Framework C) → IsNamed f → IsEmpty f → OpeningOut f (init_all env f)
  unfolding init_all
  init_all-Opens f n z =
      let parts = parts_all-Opens f n z in
      let o = and_then (init_parts env first_parts f) parts_step in
      let same : o.0.initialized_order ≡ f.initialized_order =
        and_then-keeps (λ g. g.initialized_order ≡ f.initialized_order)
          (init_parts env first_parts f) parts_step
          (ap (λ g. g.initialized_order) (init_parts-same env first_parts f))
          (λ g e.
            ap (λ h. h.initialized_order)
              (init_parts-same env other_parts
                (record g { metrics = g.config.metrics || g.metrics }))
            ∙ e) in
      and_then-Opens f o _ parts
        (λ done. init_components-Opens o.0 parts.named (λ m. ap (count m) same ∙ z (component m)))
