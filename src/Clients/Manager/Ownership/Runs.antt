-- ===== src/Clients/Manager/Ownership/Runs.antt =====
-- grpc_client.go: whole runs of a manager and of the creations of its pools keep count of the clients.
use quickgo.Prelude.{
  ℕ, zero, suc, ◌+◌, ◌≡◌, refl, ap, Bool, Option, none, some, List, [], ◌∷◌, String, arith, if_both,
}
use quickgo.Prelude.Dict.{◌is◌}
use quickgo.Prelude.Counts.{copies, times, times-append}
use quickgo.Clients.Pool.{Call, create_client_pool}
use quickgo.Clients.Manager.{Manager, register_service}
use quickgo.Clients.Manager.Steps.{
  Flight, System, new_system, Op, registering, starting, checking, creating, installing, connecting,
  closing, closing_all, flight_at, without, take_off, land, install_flight, connect_flight, step,
  run,
}
use quickgo.Clients.Manager.Ownership.Pools.{opens, closes, in_pools}
use quickgo.Clients.Manager.Ownership.Creating.{in_made, create_client_pool-counted}
use quickgo.Clients.Manager.Ownership.Closing.{Counted, close_client-Counted, close_all-Counted}
use quickgo.Clients.Manager.Ownership.Installing.{
  get_client_start-Counted, get_client_check-Counted, get_client_install-Counted,
  connect_all_install-Counted,
}

abbrev pub in_flights : ℕ → List Flight → ℕ
in_flights i = times (λ (f : Flight). copies i f.clients)

-- How often client `i` is in the pools of the manager and in those that are created.
abbrev pub in_system : ℕ → System → ℕ
in_system i s = in_pools i s.manager.client_pools + in_flights i s.flights

abbrev pub Conserved : ℕ → System → System × List Call → Type 0
Conserved i s o = in_system i s + times (opens i) o.1 ≡ times (closes i) o.1 + in_system i o.0

module _ (i : ℕ) where
  in_flights-without :
      (flights : List Flight) (k : ℕ) (f : Flight)
      → flight_at flights k ≡ some f
      → in_flights i flights ≡ copies i f.clients + in_flights i (without flights k)
  in_flights-without [] k f e = absurd (cc e)
  in_flights-without (g ∷ flights) zero f e =
      let same : g ≡ f = cc e in omega (arith, ap (λ (x : Flight). copies i x.clients) same)
  in_flights-without (g ∷ flights) (suc k) f e = omega (arith, in_flights-without flights k f e)

  in_flights-take_off :
      (name : String) (generation : ℕ) (clients : Option (List ℕ)) (flights : List Flight)
      → in_flights i (take_off name generation clients flights)
        ≡ in_flights i flights + in_made i clients
  unfolding take_off
  in_flights-take_off name generation none flights = omega arith
  in_flights-take_off name generation (some clients) flights = omega (
    arith,
    times-append (λ (f : Flight). copies i f.clients) flights
        (record { service_name = name; generation = generation; clients = clients } ∷ []),
  )

  land-Conserved :
      (install : Flight → Manager → Manager × List Call)
      → ((f : Flight) (m : Manager)
          → Counted i (copies i f.clients) m (install f m).0 (install f m).1)
      → (k : ℕ) (found : Option Flight) (s : System) → flight_at s.flights k ≡ found
      → Conserved i s (land install k found s)
  unfolding land
  land-Conserved install h k none s e = omega arith
  land-Conserved install h k (some f) s e =
      omega (arith, h f s.manager, in_flights-without s.flights k f e)

  step-Conserved : {E : Type 0} (op : Op E) (s : System) → Conserved i s (step op s)
  unfolding step register_service
  step-Conserved (registering name) s =
      if_both (λ (o : Manager × Bool). Conserved i s (record s { manager = o.0 }, [])) (name is "")
        (λ e. omega arith) (λ e. omega arith)
  step-Conserved (starting usable name) s =
      omega (arith, get_client_start-Counted i usable name s.manager)
  step-Conserved (checking usable name generation) s =
      omega (arith, get_client_check-Counted i usable name generation s.manager)
  step-Conserved (creating answer size name generation) s = omega (
    arith,
    create_client_pool-counted i answer size,
    in_flights-take_off name generation (create_client_pool answer size).1 s.flights,
  )
  step-Conserved (installing usable fails k) s =
      land-Conserved (install_flight usable fails)
        (λ f m. get_client_install-Counted i usable fails f.service_name f.generation f.clients m) k
        _ s refl
  step-Conserved (connecting k) s =
      land-Conserved connect_flight
        (λ f m. connect_all_install-Counted i f.service_name f.generation f.clients m) k _ s refl
  step-Conserved (closing fails name) s = omega (arith, close_client-Counted i fails name s.manager)
  step-Conserved (closing_all fails) s = omega (arith, close_all-Counted i fails s.manager)

  run-Conserved : {E : Type 0} (ops : List (Op E)) (s : System) → Conserved i s (run ops s)
  unfolding run
  run-Conserved [] s = omega arith
  run-Conserved (op ∷ ops) s =
      let o = step op s in
      let o' = run ops o.0 in
      omega (
        arith,
        step-Conserved op s,
        run-Conserved ops o.0,
        times-append (opens i) o.1 o'.1,
        times-append (closes i) o.1 o'.1,
      )

-- Whatever the goroutines of a new manager do, in whatever order, and whatever creating, connecting and
-- closing answer, no client is lost: each has been opened as often as it has been closed, is in a pool of the
-- manager, or is in a pool that has been created and not yet been stored or closed.
pub new_manager-run :
    {E : Type 0} (i : ℕ) (ops : List (Op E))
    → let o = run ops new_system in times (opens i) o.1 ≡ times (closes i) o.1 + in_system i o.0
new_manager-run i ops = omega (arith, run-Conserved i ops new_system)
