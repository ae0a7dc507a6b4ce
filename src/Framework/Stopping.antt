-- ===== src/Framework/Stopping.antt =====
-- framework.go: `stop`. What it closes, what it keeps, and what a failure leaves.
use quickgo.Prelude.{
  ◌+◌, ◌≡◌, refl, Bool, true, false, ◌&&◌, ◌||◌, Option, none, some, List, [], ◌∷◌, ◌++◌, String,
  if◌then◌else◌, reverse, arith, Bool-cases, ap, ◌∙◌, ◌⊎◌, inl, inr,
}
use quickgo.Prelude.Dict.{is_mem}
use quickgo.Framework.{
  Part, tracing, logger, grpc_server, grpc_client, http_server, gorm, mongodb, redis, Target, part,
  component, Env, Failure, Framework, stop_order, set_part, same_part,
}
use quickgo.Framework.Steps.{entries, close_components, close_parts}
use quickgo.Framework.Operations.{keep, is_nil, stop_parts}
use quickgo.Framework.Balance.{
  count, held, openings, closings, Balances, openings-append, closings-append,
}
use quickgo.Framework.Balance.Loops.{
  close_parts-Balances, close_components-count, close_components-opens_nothing,
  close_components-no_part, eq_of_same_part,
}
use quickgo.Framework.Validity.{
  IsNamed, IsValid, count-reverse, count-entries, count_of_mem, count_of_not_mem, count-keep,
}

is_nil-append :
    {E : Type 0} (xs ys : List (Failure E)) → is_nil (xs ++ ys) ≡ (is_nil xs && is_nil ys)
is_nil-append [] ys = refl
is_nil-append (x ∷ xs) ys = refl

module _ {E : Type 0} (env : Env E) where
  -- with no failure no name has failed
  close_components-all :
      (ns : List String)
      → is_nil (close_components env ns).2 ≡ true
      → (close_components env ns).0 ≡ []
  unfolding close_components
  close_components-all [] h = refl
  close_components-all (n ∷ ns) h =
      by_answer (env.on_close (component n)) refl (close_components-all ns) h
    where
      by_answer :
          (o : Option E)
          → env.on_close (component n) ≡ o
          → (is_nil (close_components env ns).2 ≡ true → (close_components env ns).0 ≡ [])
          → is_nil (close_components env (n ∷ ns)).2 ≡ true
          → (close_components env (n ∷ ns)).0 ≡ []
      by_answer none e k q = rw (e, close_components) (k (rw (e, close_components) at q))
      by_answer (some x) e k q = cc (rw (e, close_components) at q)

abbrev pub listed : Part → List Part → Bool
listed q [] = false
listed q (p ∷ ps) = same_part p q || listed q ps

all_listed : (q : Part) → listed q stop_order ≡ true
all_listed tracing = refl
all_listed logger = refl
all_listed grpc_server = refl
all_listed grpc_client = refl
all_listed http_server = refl
all_listed gorm = refl
all_listed mongodb = refl
all_listed redis = refl

module _ {E : Type 0} (env : Env E) where
  abbrev Emptied : List Part → (Part → Bool) → Type 0
  Emptied ps parts =
      (q : Part)
      → is_nil (close_parts env ps parts).2 ≡ true
      → listed q ps ≡ true ⊎ (parts q ≡ false)
      → (close_parts env ps parts).0 q ≡ false

  -- with no failure every listed part is gone
  close_parts-all : (ps : List Part) (parts : Part → Bool) → Emptied ps parts
  unfolding close_parts
  close_parts-all [] parts = λ q h l. ground arith
  close_parts-all (p ∷ ps) parts =
      by_answer (parts p) refl (env.on_close (part p)) refl (close_parts-all ps parts)
        (close_parts-all ps (set_part p false parts))
    where
      by_answer :
          (b : Bool)
          → parts p ≡ b
          → (o : Option E) → env.on_close (part p) ≡ o
          → Emptied ps parts
          → Emptied ps (set_part p false parts)
          → Emptied (p ∷ ps) parts
      by_answer false e o e' h k q n l =
          rw (e, close_parts) (h q (rw (e, close_parts) at n) (ground (arith, eq_of_same_part p q)))
      by_answer true e (some x) e' h k q n l = cc (rw (e, e', close_parts) at n)
      by_answer true e none e' h k q n l =
          rw (e, e', close_parts)
            (k q (rw (e, e', close_parts) at n) (ground (arith, eq_of_same_part p q)))

module _ {E C : Type 0} (env : Env E) (f : Framework C) (named : IsNamed f) where
  abbrev names : List String
  names = entries f.components f.initialized_order

  abbrev failed_names : List String
  failed_names = (close_components env (reverse names)).0

  count-names : (m : String) → count m names ≡ count m f.initialized_order
  count-names m =
      count-entries f.components m f.initialized_order
        (λ h. omega (arith, named.known m, named.registered m h))

  count-left :
      (m : String)
      → closings (component m) (close_components env (reverse names)).1
          + count m (keep failed_names names)
        ≡ count m f.initialized_order
  count-left m = elim (Bool-cases (is_mem m failed_names)) [
    | inl h ↦ omega (
      arith,
      count-keep m failed_names names ∙ ap (λ (b : Bool). if b then count m names else 0) h,
      count_of_mem m failed_names h,
      close_components-count env (reverse names) m,
      count-reverse m names,
      count-names m,
      named.known m,
      named.once m,
    )
    | inr h ↦ omega (
      arith,
      count-keep m failed_names names ∙ ap (λ (b : Bool). if b then count m names else 0) h,
      count_of_not_mem m failed_names h,
      close_components-count env (reverse names) m,
      count-reverse m names,
      count-names m,
    )
  ]

  count-all :
      (m : String)
      → is_nil (close_components env (reverse names)).2 ≡ true
      → closings (component m) (close_components env (reverse names)).1
        ≡ count m f.initialized_order
  count-all m h = omega (
    arith,
    ap (count m) (close_components-all env (reverse names) h),
    close_components-count env (reverse names) m,
    count-reverse m names,
    count-names m,
  )

  parts-Balances :
      (t : Target)
      → let (parts, more, errs) = close_parts {E = E} env stop_order f.parts in
        openings t more + held t f ≡ closings t more + held t (record f { parts = parts })
  parts-Balances t = close_parts-Balances env stop_order f t

  pub stop_parts-Balances : let (f', calls, errs) = stop_parts {E = E} env f in Balances f calls f'
  unfolding stop_parts
  stop_parts-Balances (part p) =
      let calls = (close_components env (reverse names)).1 in
      let more = (close_parts env stop_order f.parts).1 in
      ground (
        arith,
        parts-Balances (part p),
        openings-append (part p) calls more,
        closings-append (part p) calls more,
        close_components-opens_nothing env (reverse names) (part p),
        close_components-no_part env (reverse names) p,
      )
  stop_parts-Balances (component m) =
      let calls = (close_components env (reverse names)).1 in
      let more = (close_parts env stop_order f.parts).1 in
      let errs = (close_components env (reverse names)).2 in
      let errs' = (close_parts env stop_order f.parts).2 in
      ground (
        arith,
        parts-Balances (component m),
        openings-append (component m) calls more,
        closings-append (component m) calls more,
        close_components-opens_nothing env (reverse names) (component m),
        count-left m,
        count-all m,
        is_nil-append errs errs',
      )

  stop_parts-IsNamed : IsNamed (stop_parts env f).0
  unfolding stop_parts
  stop_parts-IsNamed = record {
    once = λ m. ground (arith, named.once m);
    registered = λ m h. ground (arith, named.registered m);
    known = λ m. ground (arith, named.known m, count-keep m failed_names names, count-names m);
  }

  pub stop_parts-IsValid : IsValid (stop_parts env f).0
  unfolding stop_parts
  stop_parts-IsValid = record {
    named = stop_parts-IsNamed;
    not_initializing = ground arith;
    not_stopping = ground arith;
    started_initialized = ground arith;
    stopped_down = ground arith;
    down_empty = emptied;
  }
    where
      emptied :
          (stop_parts env f).0.initialized ≡ false → (t : Target) → held t (stop_parts env f).0 ≡ 0
      emptied h (component m) = ground arith
      emptied h (part p) = ground (
        arith,
        is_nil-append (close_components env (reverse names)).2
            (close_parts env stop_order f.parts).2,
        close_parts-all env stop_order f.parts p,
        all_listed p,
      )
