-- ===== src/Clients/Manager/Steps.antt =====
-- grpc_client.go: a manager and the pools that its goroutines are creating, step by step.
use quickgo.Prelude.{ℕ, zero, suc, Bool, Option, none, some, List, [], ◌∷◌, ◌++◌, String}
use quickgo.Clients.Pool.{Call, Creation, create_client_pool}
use quickgo.Clients.Manager.{
  Manager, new_manager, register_service, get_client_start, get_client_check, get_client_install,
  connect_all_install, close_client, close_all,
}

-- A pool that is created and not yet in the map: its service, its generation and its clients.
pub record Flight : Type 0 where
  pub service_name : String
  pub generation : ℕ
  pub clients : List ℕ

pub record System : Type 0 where
  pub manager : Manager
  pub flights : List Flight

abbrev pub new_system : System
new_system = record { manager = new_manager; flights = [] }

-- The steps of all goroutines. `installing` and `connecting` are the ends of `GetClient` and of
-- `ConnectAll` for the pool at a place among the flights.
pub data Op (E : Type 0) : Type 0 where
  registering : String → Op E
  starting : (ℕ → Bool) → String → Op E
  checking : (ℕ → Bool) → String → ℕ → Op E
  creating : (ℕ → Creation E) → ℕ → String → ℕ → Op E
  installing : (ℕ → Bool) → (ℕ → Bool) → ℕ → Op E
  connecting : ℕ → Op E
  closing : (ℕ → Bool) → String → Op E
  closing_all : (ℕ → Bool) → Op E

abbrev pub flight_at : List Flight → ℕ → Option Flight
flight_at [] k = none
flight_at (f ∷ fs) zero = some f
flight_at (f ∷ fs) (suc k) = flight_at fs k

abbrev pub without : List Flight → ℕ → List Flight
without [] k = []
without (f ∷ fs) zero = fs
without (f ∷ fs) (suc k) = f ∷ without fs k

unfoldable pub take_off : String → ℕ → Option (List ℕ) → List Flight → List Flight
take_off service_name generation none flights = flights
take_off service_name generation (some clients) flights =
    flights
    ++ record { service_name = service_name; generation = generation; clients = clients } ∷ []

unfoldable pub land :
    (Flight → Manager → Manager × List Call) → ℕ → Option Flight → System → System × List Call
land install k none s = (s, [])
land install k (some f) s =
    let (m, calls) = install f s.manager in
    (record { manager = m; flights = without s.flights k }, calls)

abbrev pub install_flight : (ℕ → Bool) → (ℕ → Bool) → Flight → Manager → Manager × List Call
install_flight usable fails f m =
    let (m', calls, result) =
      get_client_install usable fails f.service_name f.generation f.clients m in
    (m', calls)

abbrev pub connect_flight : Flight → Manager → Manager × List Call
connect_flight f m =
    let (m', calls, failed) = connect_all_install f.service_name f.generation f.clients m in
    (m', calls)

unfoldable pub step : {E : Type 0} → Op E → System → System × List Call
unfolding register_service get_client_start get_client_check take_off land get_client_install
    connect_all_install close_client close_all create_client_pool
step (registering name) s = (record s { manager = (register_service name s.manager).0 }, [])
step (starting usable name) s =
    (record s { manager = (get_client_start usable name s.manager).0 }, [])
step (checking usable name generation) s =
    (record s { manager = (get_client_check usable name generation s.manager).0 }, [])
step (creating answer size name generation) s =
    let (calls, clients) = create_client_pool answer size in
    (record s { flights = take_off name generation clients s.flights }, calls)
step (installing usable fails k) s = land (install_flight usable fails) k (flight_at s.flights k) s
step (connecting k) s = land connect_flight k (flight_at s.flights k) s
step (closing fails name) s =
    let (m, calls, failed) = close_client fails name s.manager in (record s { manager = m }, calls)
step (closing_all fails) s =
    let (m, calls, failed) = close_all fails s.manager in (record s { manager = m }, calls)

unfoldable pub run : {E : Type 0} → List (Op E) → System → System × List Call
unfolding step
run [] s = (s, [])
run (op ∷ ops) s = let (s₁, calls) = step op s in let (s₂, more) = run ops s₁ in (s₂, calls ++ more)
