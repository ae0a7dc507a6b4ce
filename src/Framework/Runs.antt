-- ===== src/Framework/Runs.antt =====
-- framework.go: whole runs of a framework. No part or component that was opened is lost, and none is
-- closed twice.
use quickgo.Prelude.{◌+◌, ◌≡◌, refl, Option, List, [], ◌∷◌, ◌++◌, String, arith}
use quickgo.Framework.{Target, Env, Call, Framework, FrameworkConfig, new_framework}
use quickgo.Framework.Operations.{stop_framework, init, start, register_component}
use quickgo.Framework.Balance.{held, openings, closings, Balances-append}
use quickgo.Framework.Validity.{IsValid, new_framework-IsValid}
use quickgo.Framework.Lifecycle.{Keeps, Keeps-refl, stop_framework-Keeps}
use quickgo.Framework.Starting.{init-Keeps, start-Keeps}
use quickgo.Framework.Registering.{register-Keeps}

-- One call of a user of the framework, with the answers that its parts and components will give.
pub data Operation (E C : Type 0) : Type 0 where
  do_register : Option (String × C) → Operation E C
  do_init do_start do_stop : Env E → Operation E C

module _ {E C : Type 0} where
  unfoldable pub operate : Operation E C → Framework C → Framework C × List Call
  operate (do_register c) f = ((register_component {E = E} c f).0, [])
  operate (do_init env) f = let (g, calls, errs) = init env f in (g, calls)
  operate (do_start env) f = let (g, calls, errs) = start env f in (g, calls)
  operate (do_stop env) f = let (g, calls, errs) = stop_framework env f in (g, calls)

  unfoldable pub run : List (Operation E C) → Framework C → Framework C × List Call
  run [] f = (f, [])
  run (o ∷ os) f = let (g, calls) = operate o f in let (h, more) = run os g in (h, calls ++ more)

  operate-Keeps :
      (o : Operation E C) (f : Framework C) → IsValid f → Keeps f (operate o f).1 (operate o f).0
  unfolding operate
  operate-Keeps (do_register c) f v = register-Keeps E c f v
  operate-Keeps (do_init env) f v = init-Keeps env f v
  operate-Keeps (do_start env) f v = start-Keeps env f v
  operate-Keeps (do_stop env) f v = stop_framework-Keeps env f v

  run-Keeps :
      (os : List (Operation E C)) (f : Framework C) → IsValid f → Keeps f (run os f).1 (run os f).0
  unfolding run
  run-Keeps [] f v = Keeps-refl f v
  run-Keeps (o ∷ os) f v =
      let k = operate-Keeps o f v in
      let l = run-Keeps os (operate o f).0 k.valid in
      record {
        balances = Balances-append f (operate o f).0 _ (operate o f).1 _ k.balances l.balances;
        valid = l.valid;
      }

  -- Whatever the operations on a new framework and whatever its parts and components answer, failures
  -- and roll-backs included, the successful openings of each part and component are as many as its
  -- closings and what the framework still holds of it.
  pub run-openings :
      (config : FrameworkConfig) (os : List (Operation E C)) (t : Target)
      → let (f, calls) = run os (new_framework config) in
        openings t calls ≡ closings t calls + held t f
  run-openings config os t = omega (
    arith,
    (run-Keeps os (new_framework config) (new_framework-IsValid config)).balances t,
    (new_framework-IsValid {C = C} config).down_empty (unfold new_framework in refl) t,
  )

  -- After any operations on a new framework, none of its marks of an unfinished operation is set, it is
  -- started only if it is initialized, and if it is not initialized it holds nothing: whatever was
  -- opened has been closed.
  pub run-IsValid :
      (config : FrameworkConfig) (os : List (Operation E C))
      → IsValid (run os (new_framework config)).0
  run-IsValid config os = (run-Keeps os (new_framework config) (new_framework-IsValid config)).valid
