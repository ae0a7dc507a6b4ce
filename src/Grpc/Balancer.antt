-- ===== src/Grpc/Balancer.antt =====
-- grpc/balancer.go: the smooth weighted round-robin picker. gRPC's connections and attributes are types
-- that stand for themselves; `sort` is sort.Slice. A pointer into `subConns` is an index.
pub mod Turns
pub mod Selection
pub mod Fairness
pub mod Weights
pub mod Turn
pub mod Shares
use quickgo.Prelude.{
  ℕ, zero, suc, Bool, Option, none, some, List, [], ◌∷◌, map, get_elem?, String, if◌then◌else◌,
}
use quickgo.Prelude.Int.{ℤ, pos, ltb_ℤ}
use quickgo.Prelude.Int64.{leb_ℤ, int_add, int_sub}

pub record Address (Attributes : Type 0) : Type 0 where
  pub addr : String
  pub attributes : Option Attributes

pub record WeightedSubConn (SubConn : Type 0) : Type 0 where
  pub sub_conn : SubConn
  pub address : String
  pub weight : ℤ
  pub current_weight : ℤ

abbrev pub service_weight_attribute_key : String
service_weight_attribute_key = "quickgo.service.weight"

abbrev pub max_service_weight : ℤ
max_service_weight = pos 1000

-- What `weightFromAddress` makes of the attribute, if there is one that is an int.
unfoldable pub clamp_weight : Option ℤ → ℤ
clamp_weight none = pos 1
clamp_weight (some weight) =
    if leb_ℤ weight (pos 0)
    then pos 1
    else if ltb_ℤ max_service_weight weight
    then max_service_weight
    else weight

-- `int_value` is `Attributes.Value` with the assertion that the value is an int.
module _ {Attributes : Type 0} (int_value : Attributes → String → Option ℤ) where
  unfoldable pub attribute_weight : Option Attributes → ℤ
  unfolding clamp_weight
  attribute_weight none = pos 1
  attribute_weight (some attributes) =
      clamp_weight (int_value attributes service_weight_attribute_key)

  unfoldable pub weight_from_address : Address Attributes → ℤ
  unfolding attribute_weight
  weight_from_address address = attribute_weight address.attributes

  -- `Build`: `none` is the error picker. The pairs come in the order of the map's iteration.
  module _ {SubConn : Type 0} (less : String → String → Bool)
      (sort : (WeightedSubConn SubConn → WeightedSubConn SubConn → Bool)
        → List (WeightedSubConn SubConn)
        → List (WeightedSubConn SubConn)) where
    unfoldable pub to_weighted : SubConn × Address Attributes → WeightedSubConn SubConn
    unfolding weight_from_address
    to_weighted (sc, address) = record {
      sub_conn = sc;
      address = address.addr;
      weight = weight_from_address address;
      current_weight = pos 0;
    }

    unfoldable pub build :
        List (SubConn × Address Attributes) → Option (List (WeightedSubConn SubConn))
    unfolding to_weighted
    build [] = none
    build (ready ∷ more) =
        some (sort (λ a b. less a.address b.address) (map to_weighted (ready ∷ more)))

-- The candidate that is selected: its index and its current weight.
unfoldable pub choose : ℕ → ℤ → Option (ℕ × ℤ) → ℕ × ℤ
choose i current_weight none = (i, current_weight)
choose i current_weight (some (j, selected_weight)) =
    if ltb_ℤ selected_weight current_weight then (i, current_weight) else (j, selected_weight)

module _ {SubConn : Type 0} where
  -- `candidate.currentWeight += candidate.weight`
  unfoldable pub raise : WeightedSubConn SubConn → WeightedSubConn SubConn
  unfolding int_add
  raise candidate = record candidate {
    current_weight = int_add candidate.current_weight candidate.weight;
  }

  -- The loop of `pickNext` from index `i`: the candidates after it, the one selected, the total weight.
  unfoldable pub raise_all :
      ℕ
      → Option (ℕ × ℤ)
      → ℤ
      → List (WeightedSubConn SubConn)
      → List (WeightedSubConn SubConn) × Option (ℕ × ℤ) × ℤ
  unfolding raise choose int_add
  raise_all i selected total_weight [] = ([], selected, total_weight)
  raise_all i selected total_weight (c ∷ cs) =
      let candidate = raise c in
      let (rest, found, total) =
        raise_all (suc i) (some (choose i candidate.current_weight selected))
          (int_add total_weight candidate.weight) cs in
      (candidate ∷ rest, found, total)

  -- `selected.currentWeight -= totalWeight`
  unfoldable pub lower_at : ℕ → ℤ → List (WeightedSubConn SubConn) → List (WeightedSubConn SubConn)
  unfolding int_sub
  lower_at i total [] = []
  lower_at zero total (c ∷ cs) = record c { current_weight = int_sub c.current_weight total } ∷ cs
  lower_at (suc i) total (c ∷ cs) = c ∷ lower_at i total cs

  unfoldable pub settle_pick :
      List (WeightedSubConn SubConn) × Option (ℕ × ℤ) × ℤ
      → List (WeightedSubConn SubConn) × Option ℕ
  unfolding lower_at
  settle_pick (cs, none, total) = (cs, none)
  settle_pick (cs, some (i, w), total) = (lower_at i total cs, some i)

  unfoldable pub pick_next :
      List (WeightedSubConn SubConn) → List (WeightedSubConn SubConn) × Option ℕ
  unfolding raise_all settle_pick
  pick_next sub_conns = settle_pick (raise_all 0 none (pos 0) sub_conns)

  -- `Pick`: the connection selected, or `none` for the error that there is none.
  unfoldable pub connection_of : Option (WeightedSubConn SubConn) → Option SubConn
  connection_of none = none
  connection_of (some c) = some c.sub_conn

  unfoldable pub connection_at :
      List (WeightedSubConn SubConn) × Option ℕ → List (WeightedSubConn SubConn) × Option SubConn
  unfolding connection_of
  connection_at (cs, none) = (cs, none)
  connection_at (cs, some i) = (cs, connection_of (get_elem? cs i))

  unfoldable pub pick :
      List (WeightedSubConn SubConn) → List (WeightedSubConn SubConn) × Option SubConn
  unfolding pick_next connection_at
  pick sub_conns = connection_at (pick_next sub_conns)
