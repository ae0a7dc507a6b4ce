-- ===== src/Framework/Balance.antt =====
-- framework.go: what is opened is closed or still held. The counts of successful openings and
-- closings of one target over the calls of an operation.
pub mod Loops
use quickgo.Prelude.{
  ℕ, zero, suc, ◌+◌, ◌≡◌, refl, Bool, true, false, not, ◌&&◌, ◌||◌, Option, none, some, List, [],
  ◌∷◌, ◌++◌, String, if◌then◌else◌, reverse, arith, Bool-cases, Option-cases,
}
use quickgo.Prelude.Dict.{lookup, insert, ◌is◌, is_mem, is_refl, eq_of_is}
use quickgo.Framework.{
  Part, tracing, logger, grpc_server, grpc_client, http_server, gorm, mongodb, redis, Target, part,
  component, Call, opened, opened_disabled, open_failed, started, start_failed, closed,
  close_failed, health_checks_started, Failure, Env, Framework, Outcome, after, and_then, same_part,
}

abbrev pub same_target : Target → Target → Bool
same_target (part p) (part q) = same_part p q
same_target (component n) (component m) = n is m
same_target (part p) (component m) = false
same_target (component n) (part q) = false

abbrev pub opening : Target → Call → ℕ
opening t (opened u) = if same_target u t then 1 else 0
opening t _ = 0

abbrev pub closing : Target → Call → ℕ
closing t (closed u) = if same_target u t then 1 else 0
closing t _ = 0

-- how often a target is opened, and how often closed, in a list of calls
abbrev pub openings : Target → List Call → ℕ
openings t [] = 0
openings t (c ∷ cs) = opening t c + openings t cs

abbrev pub closings : Target → List Call → ℕ
closings t [] = 0
closings t (c ∷ cs) = closing t c + closings t cs

abbrev pub count : String → List String → ℕ
count n [] = 0
count n (m ∷ ms) = (if m is n then 1 else 0) + count n ms

-- how many of a target the framework holds
abbrev pub held : {C : Type 0} → Target → Framework C → ℕ
held (part p) f = if f.parts p then 1 else 0
held (component n) f = count n f.initialized_order

-- From `f` the calls lead to `f'`, and nothing is lost or closed twice.
abbrev pub Balances : {C : Type 0} → Framework C → List Call → Framework C → Type 0
Balances f calls f' = (t : Target) → openings t calls + held t f ≡ closings t calls + held t f'

pub openings-append :
    (t : Target) (xs ys : List Call) → openings t (xs ++ ys) ≡ openings t xs + openings t ys
openings-append t [] ys = omega arith
openings-append t (x ∷ xs) ys = omega (arith, openings-append t xs ys)

pub closings-append :
    (t : Target) (xs ys : List Call) → closings t (xs ++ ys) ≡ closings t xs + closings t ys
closings-append t [] ys = omega arith
closings-append t (x ∷ xs) ys = omega (arith, closings-append t xs ys)

pub count-append : (n : String) (xs ys : List String) → count n (xs ++ ys) ≡ count n xs + count n ys
count-append n [] ys = omega arith
count-append n (x ∷ xs) ys = omega (arith, count-append n xs ys)

pub Balances-append :
    {C : Type 0} (f f' f'' : Framework C) (xs ys : List Call)
    → Balances f xs f'
    → Balances f' ys f''
    → Balances f (xs ++ ys) f''
Balances-append f f' f'' xs ys h k t =
    omega (arith, openings-append t xs ys, closings-append t xs ys, h t, k t)
