-- ===== src/Grpc/EtcdResolver/Weights.antt =====
-- grpc/etcd.go: each address has the weight of its first instance.
use quickgo.Prelude.{
  zero, suc, ◌≡◌, refl, ap, ◌∙◌, Bool, true, false, Option, none, some, List, [], ◌∷◌, String, map,
  arith, if◌then◌else◌, Bool-cases, inl, inr,
}
use quickgo.Prelude.Dict.{◌is◌, eq_of_is, is_mem, is_refl, lookup}
use quickgo.Prelude.Int.{ℤ, pos, negsuc}
use quickgo.Grpc.EtcdResolver.{
  KeyValue, Address, addresses_from, service_addresses, positive, weight_text, weight_of,
  resolver_from, resolver_addresses, Got, get_failed, got, Resolved, failed, resolved,
  get_service_instances, some_addresses, resolve_by, resolve, resolve_resolver_addresses,
}

-- The weight that the metadata of an instance state: the number under "weight", if it is one above 0
infixl 5 ◌>>=◌
abbrev pub ◌>>=◌ {ℓ κ} : {A : Type ℓ} {B : Type κ} → Option A → (A → Option B) → Option B
none >>= f = none
some a >>= f = f a

abbrev pub above_zero : ℤ → Option ℤ
above_zero (pos zero) = none
above_zero (pos (suc n)) = some (pos (suc n))
above_zero (negsuc n) = none

abbrev pub stated_weight :
    (String → Option (List (String × String))) → (String → Option ℤ) → String → Option ℤ
stated_weight unmarshal atoi value = do
  metadata ← unmarshal value
  text ← lookup "weight" metadata
  w ← atoi text
  above_zero w

positive-none : positive none ≡ none
unfolding positive
positive-none = refl

weight_text-none : weight_text none ≡ ""
unfolding weight_text
weight_text-none = refl

weight_text-some : (text : String) → weight_text (some text) ≡ text
unfolding weight_text
weight_text-some text = refl

positive-above_zero : (w : ℤ) → positive (some w) ≡ above_zero w
unfolding positive
positive-above_zero (pos zero) = refl
positive-above_zero (pos (suc n)) = ground arith
positive-above_zero (negsuc n) = ground arith

weight_of-bind :
    (atoi : String → Option ℤ)
    → atoi "" ≡ none
    → (metadata : Option (List (String × String)))
    → weight_of atoi metadata ≡ (metadata >>= λ m. lookup "weight" m >>= λ t. atoi t >>= above_zero)
unfolding weight_of
weight_of-bind atoi no_number none = refl
weight_of-bind atoi no_number (some metadata) = of_text (lookup "weight" metadata)
  where
    of_number : (w : Option ℤ) → positive w ≡ (w >>= above_zero)
    of_number none = positive-none
    of_number (some w) = positive-above_zero w

    of_text :
        (text : Option String)
        → positive (atoi (weight_text text)) ≡ (text >>= λ t. atoi t >>= above_zero)
    of_text none =
        ap (λ t. positive (atoi t)) weight_text-none ∙ ap positive no_number ∙ positive-none
    of_text (some text) =
        ap (λ t. positive (atoi t)) (weight_text-some text) ∙ of_number (atoi text)

addresses_from-map :
    {A : Type 0} (base : String → String) (f g : String → A) (kvs : List KeyValue)
    (seen : List String)
    → ((b : String) → is_mem b seen ≡ false → f b ≡ g b)
    → map f (addresses_from base kvs seen) ≡ map g (addresses_from base kvs seen)
unfolding addresses_from
addresses_from-map base f g [] seen h = refl
addresses_from-map base f g (kv ∷ kvs) seen h = elim (Bool-cases (is_mem (base kv.key) seen)) [
  | inl e ↦ rw e (addresses_from-map base f g kvs seen h)
  | inr e ↦ rw e (
      ap (λ x. x ∷ map f (addresses_from base kvs (base kv.key ∷ seen))) (h (base kv.key) e)
      ∙ ap (λ xs. g (base kv.key) ∷ xs)
          (addresses_from-map base f g kvs (base kv.key ∷ seen)
            (λ b out. h b (ground (arith, out)))))
]

-- A name that was seen is not one that was not.
differs :
    (seen_name name : String) (seen : List String)
    → is_mem seen_name seen ≡ true
    → is_mem name seen ≡ false
    → (seen_name is name) ≡ false
differs seen_name name seen e out = elim (Bool-cases (seen_name is name)) [
  | inl same ↦ absurd (cc (eq_of_is seen_name name same, e, out))
  | inr other ↦ other
]

module _ (base : String → String) (unmarshal : String → Option (List (String × String)))
    (atoi : String → Option ℤ) where
  -- An address has the weight that the first instance of that name states.
  abbrev pub first_weight : List KeyValue → String → Option ℤ
  first_weight [] name = none
  first_weight (kv ∷ kvs) name =
      let rest = first_weight kvs name in
      if base kv.key is name then stated_weight unmarshal atoi kv.value else rest

  abbrev pub weigh : List KeyValue → String → Address
  weigh kvs name = record { addr = name; weight = first_weight kvs name }

  weight_of-stated_weight :
      (value : String)
      → atoi "" ≡ none
      → weight_of atoi (unmarshal value) ≡ stated_weight unmarshal atoi value
  weight_of-stated_weight value no_number = of_metadata (unmarshal value)
    where
      of_metadata :
          (metadata : Option (List (String × String)))
          → weight_of atoi metadata
            ≡ (metadata >>= λ m. lookup "weight" m >>= λ t. atoi t >>= above_zero)
      of_metadata m = weight_of-bind atoi no_number m

  weigh-later :
      (kv : KeyValue) (kvs : List KeyValue) (name : String)
      → (base kv.key is name) ≡ false
      → weigh kvs name ≡ weigh (kv ∷ kvs) name
  weigh-later kv kvs name out = rw out refl

  weigh-first :
      (kv : KeyValue) (kvs : List KeyValue)
      → atoi "" ≡ none
      → record { addr = base kv.key; weight = weight_of atoi (unmarshal kv.value) }
        ≡ weigh (kv ∷ kvs) (base kv.key)
  weigh-first kv kvs no_number =
      rw (is_refl (base kv.key), weight_of-stated_weight kv.value no_number) refl

  resolver_from-weigh :
      (kvs : List KeyValue) (seen : List String)
      → atoi "" ≡ none
      → resolver_from base unmarshal atoi kvs seen ≡ map (weigh kvs) (addresses_from base kvs seen)
  unfolding resolver_from addresses_from
  resolver_from-weigh [] seen no_number = refl
  resolver_from-weigh (kv ∷ kvs) seen no_number = elim (Bool-cases (is_mem (base kv.key) seen)) [
    | inl e ↦ rw e (
        resolver_from-weigh kvs seen no_number
        ∙ addresses_from-map base (weigh kvs) (weigh (kv ∷ kvs)) kvs seen
            (λ name out. weigh-later kv kvs name (differs (base kv.key) name seen e out)))
    | inr e ↦ rw e (
        (λ i.
          weigh-first kv kvs no_number i
          ∷ (resolver_from-weigh kvs (base kv.key ∷ seen) no_number
                ∙ addresses_from-map base (weigh kvs) (weigh (kv ∷ kvs)) kvs (base kv.key ∷ seen)
                    (λ name out. weigh-later kv kvs name (ground (arith, out))))
              i))
  ]

-- What etcd has, and a list of addresses with weights
abbrev pub instances_in : {E : Type 0} → Got E → List KeyValue
instances_in (get_failed e) = []
instances_in (got kvs) = kvs

abbrev pub resolved_as : {E A B : Type 0} → (A → B) → Resolved E A → Resolved E B
resolved_as f (failed e) = failed e
resolved_as f (resolved addresses) = resolved (map f addresses)

module _ {E : Type 0} where
  some_addresses-resolved_as :
      {A B : Type 0} (f : A → B) (addresses : List A)
      → some_addresses (map f addresses) ≡ resolved_as f (some_addresses {E = E} addresses)
  unfolding some_addresses
  some_addresses-resolved_as f [] = refl
  some_addresses-resolved_as f (a ∷ rest) = refl

  -- `ResolveResolverAddresses` fails exactly as `Resolve` does, and otherwise resolves to the same addresses in
  -- the same order, each with the weight that the first instance of its name states: the number that its
  -- metadata, when they can be read, give under "weight", if it is above 0. `strconv.Atoi` reads no number in
  -- an empty text.
  pub resolve_resolver_addresses-resolve :
      (base : String → String) (unmarshal : String → Option (List (String × String)))
      (atoi : String → Option ℤ) (is_open : Bool) (answer : Got E)
      → atoi "" ≡ none
      → resolve_resolver_addresses base unmarshal atoi is_open answer
        ≡ resolved_as
            (weigh base unmarshal atoi (instances_in answer))
            (resolve base is_open answer)
  unfolding resolve_resolver_addresses resolve resolve_by get_service_instances resolver_addresses
      service_addresses
  resolve_resolver_addresses-resolve base unmarshal atoi true (get_failed e) no_number = refl
  resolve_resolver_addresses-resolve base unmarshal atoi false (get_failed e) no_number = refl
  resolve_resolver_addresses-resolve base unmarshal atoi false (got kvs) no_number = refl
  resolve_resolver_addresses-resolve base unmarshal atoi true (got kvs) no_number =
      ap some_addresses (resolver_from-weigh base unmarshal atoi kvs [] no_number)
      ∙ some_addresses-resolved_as (weigh base unmarshal atoi kvs) (addresses_from base kvs [])
