-- ===== src/Tests/Balancers.antt =====
-- grpc/balancer.go on a picker of three connections with the weights 5, 1 and 1.
use quickgo.Prelude.{ℕ, ◌+◌, ◌*◌, ◌≡◌, refl, ◌<◌, List, [], ◌∷◌, String, arith}
use quickgo.Prelude.Int.{pos}
use quickgo.Grpc.Balancer.{WeightedSubConn, pick_next}
use quickgo.Grpc.Balancer.Turn.{history, after, IsNew}
use quickgo.Grpc.Balancer.Turns.{count}
use quickgo.Grpc.Balancer.Shares.{history-share, history-turn}

abbrev connection : String → ℕ → WeightedSubConn ℕ
connection address weight = record {
  sub_conn = weight;
  address = address;
  weight = pos weight;
  current_weight = pos 0;
}

abbrev three : List (WeightedSubConn ℕ)
three = connection "a" 5 ∷ connection "b" 1 ∷ connection "c" 1 ∷ []

-- nginx's example: a a b a c a a
picks_three : history 7 three ≡ 0 ∷ 0 ∷ 2 ∷ 0 ∷ 1 ∷ 0 ∷ 0 ∷ []
unfolding history after pick_next
picks_three = refl

three-IsNew : IsNew three
three-IsNew =
    ((refl, omega arith, refl), ((refl, omega arith, refl), ((refl, omega arith, refl), tt)))

history-share_example : 7 * count 0 (history 3 three) < 3 * 5 + 7
history-share_example = history-share 3 0 (connection "a" 5) three three-IsNew (omega arith) refl

history-turn_example : count 0 (history 7 three) ≡ 5
history-turn_example = history-turn 0 (connection "a" 5) three three-IsNew (omega arith) refl
