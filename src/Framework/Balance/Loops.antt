-- ===== src/Framework/Balance/Loops.antt =====
-- framework.go: each loop of `Init` and of `stop` balances.
use quickgo.Prelude.{
  ◌+◌, ◌≡◌, refl, Bool, true, false, Option, none, some, List, [], ◌∷◌, ◌++◌, String, arith,
}
use quickgo.Framework.{
  Part, tracing, logger, grpc_server, grpc_client, http_server, gorm, mongodb, redis, Target, part,
  component, opened, closed, Env, Framework, same_part, set_part,
}
use quickgo.Framework.Steps.{
  Opening, not_wanted, refused, lasting_part, passing_part, open_part, init_parts, init_components,
  close_components, close_parts,
}
use quickgo.Framework.Balance.{openings, closings, count, Balances, count-append, Balances-append}

-- What `Init` is about to open is not there yet, and each part is opened once.
abbrev pub Absent : (Part → Bool) → List Part → Type 0
Absent parts [] = Unit {0}
Absent parts (p ∷ ps) = (parts p ≡ false) × Absent parts ps

abbrev pub Others : Part → List Part → Type 0
Others p [] = Unit {0}
Others p (q ∷ qs) = (same_part p q ≡ false) × Others p qs

abbrev pub Distinct : List Part → Type 0
Distinct [] = Unit {0}
Distinct (p ∷ ps) = Others p ps × Distinct ps

Absent-set_part :
    (p : Part) (b : Bool) (parts : Part → Bool) (ps : List Part)
    → Others p ps
    → Absent parts ps
    → Absent (set_part p b parts) ps
Absent-set_part p b parts [] o a = tt
Absent-set_part p b parts (q ∷ ps) o a = (ground arith, Absent-set_part p b parts ps o.1 a.1)

pub eq_of_same_part : (p q : Part) → same_part p q ≡ true → p ≡ q
eq_of_same_part tracing q h = ground arith
eq_of_same_part logger q h = ground arith
eq_of_same_part grpc_server q h = ground arith
eq_of_same_part grpc_client q h = ground arith
eq_of_same_part http_server q h = ground arith
eq_of_same_part gorm q h = ground arith
eq_of_same_part mongodb q h = ground arith
eq_of_same_part redis q h = ground arith

module _ {C : Type 0} where
  opened_part-Balances :
      (p : Part) (f : Framework C)
      → f.parts p ≡ false
      → Balances f (opened (part p) ∷ []) (record f { parts = set_part p true f.parts })
  opened_part-Balances p f a (part q) = ground (arith, eq_of_same_part p q)
  opened_part-Balances p f a (component n) = omega arith

  closed_part-Balances :
      (p : Part) (f : Framework C)
      → f.parts p ≡ true
      → Balances f (closed (part p) ∷ []) (record f { parts = set_part p false f.parts })
  closed_part-Balances p f a (part q) = ground (arith, eq_of_same_part p q)
  closed_part-Balances p f a (component n) = omega arith

  opened_component-Balances :
      (n : String) (f : Framework C)
      → Balances f
          (opened (component n) ∷ [])
          (record f { initialized_order = f.initialized_order ++ n ∷ [] })
  opened_component-Balances n f (part q) = omega arith
  opened_component-Balances n f (component m) =
      ground (arith, count-append m f.initialized_order (n ∷ []))

module _ {E C : Type 0} where
  pub init_parts-Balances :
      (env : Env E) (ps : List Part) (f : Framework C)
      → Distinct ps
      → Absent f.parts ps
      → let (f', calls, errs) = init_parts {E = E} env ps f in Balances f calls f'
  unfolding init_parts
  init_parts-Balances env [] f d a = λ t. omega arith
  init_parts-Balances env (p ∷ ps) f d a =
      by_opening (open_part env f.config p) refl (init_parts-Balances env ps f d.1 a.1) (
        init_parts-Balances env ps (record f { parts = set_part p true f.parts }) d.1
          (Absent-set_part p true f.parts ps d.0 a.1))
    where
      by_opening :
          (o : Opening E)
          → open_part env f.config p ≡ o
          → (let (f', calls, errs) = init_parts {E = E} env ps f in Balances f calls f')
          → (let g = record f { parts = set_part p true f.parts } in
              let (f', calls, errs) = init_parts {E = E} env ps g in Balances g calls f')
          → (let (f', calls, errs) = init_parts {E = E} env (p ∷ ps) f in Balances f calls f')
      by_opening not_wanted e h k = rw (e, init_parts) h
      by_opening (refused x) e h k = rw (e, init_parts) (λ t. omega arith)
      by_opening lasting_part e h k =
          rw (e, init_parts)
            (Balances-append f _ _ (opened (part p) ∷ []) _ (opened_part-Balances p f a.0) k)
      by_opening passing_part e h k = rw (e, init_parts) (λ t. omega (arith, h t))

  pub init_components-Balances :
      (env : Env E) (ns : List String) (f : Framework C)
      → let (f', calls, errs) = init_components {E = E} env ns f in Balances f calls f'
  unfolding init_components
  init_components-Balances env [] f = λ t. omega arith
  init_components-Balances env (n ∷ ns) f =
      by_answer (env.is_enabled n) refl (env.on_open (component n)) refl
        (init_components-Balances env ns f)
        (init_components-Balances env ns
          (record f { initialized_order = f.initialized_order ++ n ∷ [] }))
    where
      by_answer :
          (b : Bool)
          → env.is_enabled n ≡ b
          → (o : Option E) → env.on_open (component n) ≡ o
          → (let (f', calls, errs) = init_components {E = E} env ns f in Balances f calls f')
          → (let g = record f { initialized_order = f.initialized_order ++ n ∷ [] } in
              let (f', calls, errs) = init_components {E = E} env ns g in Balances g calls f')
          → (let (f', calls, errs) = init_components {E = E} env (n ∷ ns) f in Balances f calls f')
      by_answer false e o e' h k = rw (e, init_components) h
      by_answer true e (some x) e' h k = rw (e, e', init_components) (λ t. omega arith)
      by_answer true e none e' h k =
          rw (e, e', init_components)
            (Balances-append f _ _ (opened (component n) ∷ []) _ (opened_component-Balances n f) k)

module _ {E : Type 0} where
  pub close_parts-Balances :
      {C : Type 0} (env : Env E) (ps : List Part) (f : Framework C)
      → let (parts, calls, errs) = close_parts {E = E} env ps f.parts in
        Balances f calls (record f { parts = parts })
  unfolding close_parts
  close_parts-Balances env [] f = λ t. omega arith
  close_parts-Balances {C} env (p ∷ ps) f =
      by_answer (f.parts p) refl (env.on_close (part p)) refl (close_parts-Balances env ps f)
        (close_parts-Balances env ps (record f { parts = set_part p false f.parts }))
    where
      Closes : Framework C → List Part → Type 0
      Closes g qs =
          let (parts, calls, errs) = close_parts {E = E} env qs g.parts in
          Balances g calls (record g { parts = parts })

      by_answer :
          (b : Bool)
          → f.parts p ≡ b
          → (o : Option E) → env.on_close (part p) ≡ o
          → Closes f ps
          → Closes (record f { parts = set_part p false f.parts }) ps
          → Closes f (p ∷ ps)
      by_answer false e o e' h k = rw (e, close_parts) h
      by_answer true e (some x) e' h k = rw (e, e', close_parts) (λ t. omega (arith, h t))
      by_answer true e none e' h k =
          rw (e, e', close_parts)
            (Balances-append f _ _ (closed (part p) ∷ []) _ (closed_part-Balances p f e) k)

  -- Each component of the list is closed, or is among the failed.
  pub close_components-count :
      (env : Env E) (ns : List String) (m : String)
      → let (failed, calls, errs) = close_components {E = E} env ns in
        closings (component m) calls + count m failed ≡ count m ns
  unfolding close_components
  close_components-count env [] m = omega arith
  close_components-count env (n ∷ ns) m =
      by_answer (env.on_close (component n)) refl (close_components-count env ns m)
    where
      Counts : List String → Type 0
      Counts ms =
          let (failed, calls, errs) = close_components {E = E} env ms in
          closings (component m) calls + count m failed ≡ count m ms

      by_answer : (o : Option E) → env.on_close (component n) ≡ o → Counts ns → Counts (n ∷ ns)
      by_answer none e h = rw (e, close_components) (omega arith)
      by_answer (some x) e h = rw (e, close_components) (omega arith)

  pub close_components-opens_nothing :
      (env : Env E) (ns : List String) (t : Target) → openings t (close_components env ns).1 ≡ 0
  unfolding close_components
  close_components-opens_nothing env [] t = refl
  close_components-opens_nothing env (n ∷ ns) t =
      by_answer (env.on_close (component n)) refl (close_components-opens_nothing env ns t)
    where
      by_answer :
          (o : Option E)
          → env.on_close (component n) ≡ o
          → openings t (close_components env ns).1 ≡ 0
          → openings t (close_components env (n ∷ ns)).1 ≡ 0
      by_answer none e h = rw (e, close_components) (omega arith)
      by_answer (some x) e h = rw (e, close_components) (omega arith)

  pub close_components-no_part :
      (env : Env E) (ns : List String) (p : Part)
      → closings (part p) (close_components env ns).1 ≡ 0
  unfolding close_components
  close_components-no_part env [] p = refl
  close_components-no_part env (n ∷ ns) p =
      by_answer (env.on_close (component n)) refl (close_components-no_part env ns p)
    where
      by_answer :
          (o : Option E)
          → env.on_close (component n) ≡ o
          → closings (part p) (close_components env ns).1 ≡ 0
          → closings (part p) (close_components env (n ∷ ns)).1 ≡ 0
      by_answer none e h = rw (e, close_components) (omega arith)
      by_answer (some x) e h = rw (e, close_components) (omega arith)
