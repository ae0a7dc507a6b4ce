-- ===== src/Grpc/Registry/Counts.antt =====
-- grpc/registry.go: the instances at one address in the list of a service.
use quickgo.Prelude.{
  ℕ, suc, ◌-◌, ◌≡◌, refl, ap, ◌∙◌, true, false, Bool-cases, inl, inr, Option, none, some, List, [],
  ◌∷◌, ◌++◌, String, arith, if◌then◌else◌, if_both,
}
use quickgo.Prelude.Dict.{◌is◌, eq_of_is}
use quickgo.Grpc.Registry.{cons_kept, ServiceInfo, remove_first}

-- How many of a list of instances are at an address.
unfoldable pub at_address : String → List ServiceInfo → ℕ
at_address address [] = 0
at_address address (s ∷ services) =
    let rest = at_address address services in if s.address is address then suc rest else rest

pub at_address-append :
    (address : String) (s : ServiceInfo) (services : List ServiceInfo)
    → at_address address (services ++ s ∷ []) ≡ (
        if s.address is address
        then suc (at_address address services)
        else at_address address services)
unfolding at_address
at_address-append address s [] = refl
at_address-append address s (t ∷ services) = ground (arith, at_address-append address s services)

-- The list that stays under a name after the loop of `Deregister`.
unfoldable pub kept : List ServiceInfo → Option (List ServiceInfo) → List ServiceInfo
kept services none = services
kept services (some services') = services'

at_address-cons_same :
    (a : String) (s : ServiceInfo) (services : List ServiceInfo) (o : Option (List ServiceInfo))
    → (s.address is a) ≡ false
    → at_address a (kept services o) ≡ at_address a services - 1
    → at_address a (kept (s ∷ services) (cons_kept s o)) ≡ at_address a (s ∷ services) - 1
unfolding at_address kept cons_kept
at_address-cons_same a s services none e ih = ground (arith, e, ih)
at_address-cons_same a s services (some x) e ih = ground (arith, e, ih)

at_address-cons_other :
    (b : String) (s : ServiceInfo) (services : List ServiceInfo) (o : Option (List ServiceInfo))
    → at_address b (kept services o) ≡ at_address b services
    → at_address b (kept (s ∷ services) (cons_kept s o)) ≡ at_address b (s ∷ services)
unfolding at_address kept cons_kept
at_address-cons_other b s services none ih = refl
at_address-cons_other b s services (some x) ih = ground (arith, ih)

at_address-nil : (a : String) → at_address a [] ≡ at_address a [] - 1
unfolding at_address
at_address-nil a = refl

same_here :
    (s : ServiceInfo) (services : List ServiceInfo) (a : String)
    → (s.address is a) ≡ true
    → at_address a services ≡ at_address a (s ∷ services) - 1
unfolding at_address
same_here s services a e = ground (arith, e)

other_here :
    (s : ServiceInfo) (services : List ServiceInfo) (b : String)
    → (s.address is b) ≡ false
    → at_address b services ≡ at_address b (s ∷ services)
unfolding at_address
other_here s services b e = ground (arith, e)

-- The loop takes one instance away at its address,
at_address-remove_same :
    (a : String) (services : List ServiceInfo)
    → at_address a (kept services (remove_first a services)) ≡ at_address a services - 1
unfolding remove_first kept
at_address-remove_same a [] = at_address-nil a
at_address-remove_same a (s ∷ services) =
    if_both (λ o. at_address a (kept (s ∷ services) o) ≡ at_address a (s ∷ services) - 1)
      (s.address is a) (λ e. same_here s services a e)
      (λ e.
        at_address-cons_same a s services (remove_first a services) e
          (at_address-remove_same a services))

-- and none at another.
at_address-remove_other :
    (a b : String) (services : List ServiceInfo)
    → (a is b) ≡ false
    → at_address b (kept services (remove_first a services)) ≡ at_address b services
unfolding remove_first kept
at_address-remove_other a b [] h = refl
at_address-remove_other a b (s ∷ services) h =
    if_both (λ o. at_address b (kept (s ∷ services) o) ≡ at_address b (s ∷ services))
      (s.address is a)
      (λ e. other_here s services b (ap (λ x. x is b) (eq_of_is s.address a e) ∙ h))
      (λ e.
        at_address-cons_other b s services (remove_first a services)
          (at_address-remove_other a b services h))

-- One `Deregister` takes one instance of its service at its address away, if there is one.
pub remove_counts :
    (a address : String) (services : List ServiceInfo)
    → at_address address (kept services (remove_first a services))
      ≡ (if a is address then at_address address services - 1 else at_address address services)
remove_counts a address services = elim (Bool-cases (a is address)) [
  | inl e ↦ ground (
    arith,
    e,
    at_address-remove_same address services,
    ap (λ x. at_address address (kept services (remove_first x services))) (eq_of_is a address e),
  )
  | inr e ↦ ground (arith, e, at_address-remove_other a address services e)
]
