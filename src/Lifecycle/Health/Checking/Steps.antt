-- ===== src/Lifecycle/Health/Checking/Steps.antt =====
-- lifecycle/health.go: no step of a `Check` loses a check or makes one twice, and the slots and the room are enough.
use quickgo.Prelude.{
  ℕ, zero, suc, ◌≡◌, refl, ap, ltb, List, [], ◌∷◌, String, arith, length, length-append, if_both,
}
use quickgo.Lifecycle.Health.{HealthResult}
use quickgo.Lifecycle.Health.Checking.{
  Checking, Op, taking, acquiring, giving_up, answering, receiving, timing_out, delivering,
  collecting, leaving_slot, joining, collect_sent, leave_slot, step, run,
}
use quickgo.Lifecycle.Health.Checking.Accounts.{results_of, Sound, results_of-append}
use quickgo.Lifecycle.Health.Checking.Workers.{
  take_job-Sound, acquire_slot-Sound, give_up-Sound, answer-Sound, receive-Sound, time_out-Sound,
  deliver-Sound,
}

module _ {V : Type 0} (name : String) (n staff slots : ℕ) where
  collect_sent-Sound :
      (jobs : List String) (sent : List (String × HealthResult V)) (c : Checking V)
      → sent ≡ c.sent
      → Sound name n staff slots c
      → Sound name n staff slots (collect_sent jobs sent c)
  unfolding collect_sent
  collect_sent-Sound [] [] c e s = s
  collect_sent-Sound [] (r ∷ sent) c e s =
      let one : List (String × HealthResult V) = r ∷ [] in
      record {
        all_there =
            omega
              (arith, s.all_there, ap (results_of name) e, results_of-append name c.results one);
        held = s.held;
        fits = omega (
          arith,
          s.fits,
          ap (λ (rs : List (String × HealthResult V)). length rs) e,
          length-append c.results one,
        );
        staffed = s.staffed;
        kept = s.kept;
        bound = s.bound;
      }
  collect_sent-Sound (job ∷ jobs) sent c e s = s

  leave_slot-Sound :
      (m : ℕ) (c : Checking V)
      → m ≡ c.leaving
      → Sound name n staff slots c
      → Sound name n staff slots (leave_slot m c)
  unfolding leave_slot
  leave_slot-Sound zero c e s = s
  leave_slot-Sound (suc m) c e s = record {
    all_there = s.all_there;
    held = omega (arith, e, s.held);
    fits = s.fits;
    staffed = s.staffed;
    kept = s.kept;
    bound = omega (arith, s.bound);
  }

  pub step-Sound :
      (op : Op V) (c : Checking V)
      → Sound name n staff slots c
      → Sound name n staff slots (step op c)
  unfolding step
  step-Sound (taking k) c s = take_job-Sound name n staff slots k _ c refl s
  step-Sound (acquiring k) c s = acquire_slot-Sound name n staff slots k _ c refl s
  step-Sound (giving_up k err now) c s = give_up-Sound name n staff slots k err now _ c refl s
  step-Sound (answering k a) c s = answer-Sound name n staff slots k a _ c refl s
  step-Sound (receiving k) c s = receive-Sound name n staff slots k _ c refl s
  step-Sound (timing_out k err now) c s = time_out-Sound name n staff slots k err now _ c refl s
  step-Sound (delivering k) c s = deliver-Sound name n staff slots k _ c refl s
  step-Sound collecting c s = collect_sent-Sound c.jobs c.sent c refl s
  step-Sound leaving_slot c s = leave_slot-Sound c.leaving c refl s
  step-Sound joining c s =
      if_both (Sound name n staff slots) (ltb c.used c.slots)
        (λ free. record {
          all_there = s.all_there;
          held = omega (arith, s.held);
          fits = s.fits;
          staffed = s.staffed;
          kept = s.kept;
          bound = ground (arith, free, s.bound);
        })
        (λ full. s)

  pub run-Sound :
      (ops : List (Op V)) (c : Checking V)
      → Sound name n staff slots c
      → Sound name n staff slots (run ops c)
  unfolding run
  run-Sound [] c s = s
  run-Sound (op ∷ ops) c s = run-Sound ops (step op c) (step-Sound op c s)
