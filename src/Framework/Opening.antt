-- ===== src/Framework/Opening.antt =====
-- framework.go: `Init`. What its loops change, and that a failed `Init` loses nothing.
use quickgo.Prelude.{
  ◌+◌, ◌≤◌, ◌≡◌, refl, Bool, true, false, Option, none, some, List, [], ◌∷◌, ◌++◌, String, arith,
  ◌∙◌,
}
use quickgo.Framework.{Part, component, Env, Framework, set_part}
use quickgo.Framework.Steps.{
  Opening, not_wanted, refused, lasting_part, passing_part, open_part, init_parts, init_components,
}
use quickgo.Framework.Balance.{count, count-append}
use quickgo.Framework.Stopping.{listed}

module _ {E C : Type 0} (env : Env E) where
  abbrev parts_opened : List Part → Framework C → Framework C
  parts_opened ps f = (init_parts {E = E} env ps f).0

  abbrev components_opened : List String → Framework C → Framework C
  components_opened ns f = (init_components {E = E} env ns f).0

  -- `Init` opens parts and changes nothing else of the state, then components.
  pub init_parts-same :
      (ps : List Part) (f : Framework C)
      → parts_opened ps f ≡ record f { parts = (parts_opened ps f).parts }
  unfolding init_parts
  init_parts-same [] f = refl
  init_parts-same (p ∷ ps) f =
      by_opening (open_part env f.config p) refl (init_parts-same ps f)
        (init_parts-same ps (record f { parts = set_part p true f.parts }))
    where
      Same : List Part → Framework C → Framework C → Type 0
      Same qs g h = parts_opened qs g ≡ record h { parts = (parts_opened qs g).parts }

      by_opening :
          (o : Opening E)
          → open_part env f.config p ≡ o
          → Same ps f f
          → Same ps (record f { parts = set_part p true f.parts }) f
          → Same (p ∷ ps) f f
      by_opening not_wanted e h k = rw (parts_opened, e, init_parts) h
      by_opening (refused x) e h k = rw (parts_opened, e, init_parts)
      by_opening lasting_part e h k = rw (parts_opened, e, init_parts) k
      by_opening passing_part e h k = rw (parts_opened, e, init_parts) h

  pub init_parts-unlisted :
      (ps : List Part) (f : Framework C) (q : Part)
      → listed q ps ≡ false
      → (parts_opened ps f).parts q ≡ f.parts q
  unfolding init_parts
  init_parts-unlisted [] f q l = refl
  init_parts-unlisted (p ∷ ps) f q l =
      by_opening (open_part env f.config p) refl (init_parts-unlisted ps f q (ground arith)) (
        init_parts-unlisted ps (record f { parts = set_part p true f.parts }) q (ground arith)
        ∙ ground arith)
    where
      by_opening :
          (o : Opening E)
          → open_part env f.config p ≡ o
          → (parts_opened ps f).parts q ≡ f.parts q
          → (parts_opened ps (record f { parts = set_part p true f.parts })).parts q ≡ f.parts q
          → (parts_opened (p ∷ ps) f).parts q ≡ f.parts q
      by_opening not_wanted e h k = rw (parts_opened, e, init_parts) h
      by_opening (refused x) e h k = rw (parts_opened, e, init_parts)
      by_opening lasting_part e h k = rw (parts_opened, e, init_parts) k
      by_opening passing_part e h k = rw (parts_opened, e, init_parts) h

  -- the names that `Init` adds to the initialized ones are among those of its list
  pub init_components-same :
      (ns : List String) (f : Framework C)
      → (components_opened ns f
          ≡ record f { initialized_order = (components_opened ns f).initialized_order })
        × ((m : String)
            → count m (components_opened ns f).initialized_order
              ≤ count m f.initialized_order + count m ns)
  unfolding init_components
  init_components-same [] f = (refl, λ m. omega arith)
  init_components-same (n ∷ ns) f =
      by_answer (env.is_enabled n) refl (env.on_open (component n)) refl (init_components-same ns f)
        (init_components-same ns (record f { initialized_order = f.initialized_order ++ n ∷ [] }))
    where
      Same : List String → Framework C → Framework C → Type 0
      Same ms g h =
          (components_opened ms g
            ≡ record h { initialized_order = (components_opened ms g).initialized_order })
          × ((m : String)
              → count m (components_opened ms g).initialized_order
                ≤ count m g.initialized_order + count m ms)

      by_answer :
          (b : Bool)
          → env.is_enabled n ≡ b
          → (o : Option E) → env.on_open (component n) ≡ o
          → Same ns f f
          → Same ns (record f { initialized_order = f.initialized_order ++ n ∷ [] }) f
          → Same (n ∷ ns) f f
      by_answer false e o e' h k =
          rw (components_opened, e, init_components) (h.0, λ m. omega (arith, h.1 m))
      by_answer true e (some x) e' h k =
          rw (components_opened, e, e', init_components) (refl, λ m. omega arith)
      by_answer true e none e' h k =
          rw (components_opened, e, e', init_components)
            (k.0, λ m. omega (arith, k.1 m, count-append m f.initialized_order (n ∷ [])))
