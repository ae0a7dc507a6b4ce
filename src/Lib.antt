-- ===== src/Lib.antt =====
-- quickgo: the core logic of the quickgo framework (github.com/gly-hub/quickgo).
--
-- The framework (framework.go) opens, starts and closes the parts of an application (servers,
-- database managers, tracing, logger) and the components registered with it. Package resilience
-- guards calls: circuit breakers, one for each name, and rate limiters. Package grpc registers services in
-- etcd, finds their addresses and balances calls among them; the client manager of the framework keeps a pool
-- of connections for each service. Package lifecycle shuts an application down and checks its health.
--
-- Framework: framework.go. Framework.antt has the state and the vocabulary, Framework/Steps the loops of
-- Init and stop, Framework/Operations the operations Init, Start, Stop, stop and RegisterComponent.
-- What a part or component answers comes from an environment, one for each operation. An operation
-- returns the calls that it made, in order. Names stand for components; the map from names to
-- components is an association list (Prelude/Dict).
-- Resilience/Breaker, Resilience/BreakerManager: resilience/circuitbreaker.go. A method that holds the
-- lock is one step; the readings of the clock are its arguments. A breaker has one address in a heap,
-- which the manager's map gives out.
-- Resilience/SlidingWindow: resilience/ratelimit.go, the sliding-window limiter.
-- Grpc/Balancer: grpc/balancer.go, the weighted round-robin picker, whose pointers into its slice are indices.
-- Lifecycle/Shutdown: lifecycle/shutdown.go. Contexts and the answers of hooks come from an environment.
-- Resilience/Retry: resilience/retry.go, the loop of DoWithResult; computations on float64 and the
-- time since its start are parameters.
-- Grpc/Registry: grpc/registry.go, the static registry, over the dictionary of Prelude/Dict.
-- Gerr: gerr/error.go. Gerr/Chains has Go's error values and errors.As, Gerr/Constructors the constructors.
-- Resilience/Retry/Retryable is IsRetryableError of resilience/retry.go.
-- Grpc/EtcdRegistry: grpc/etcd.go, the registry. What the etcd client answers in an operation is given with
-- it, and an operation returns the calls that it makes. Operations do not overlap, by `operationMu`.
-- Clients: grpc_client.go, the manager of pools of connections. Clients/Manager/Steps runs the goroutines: a
-- step is what one lock covers, or the creation of a pool. A client is a number; usable, created, connected
-- and closed are answers of the environment.
-- Lifecycle/Health: lifecycle/health.go. Health/Checking has the workers of a Check, their channels and the
-- slots of the checker, a step being that of one goroutine or of two that meet; what a check answers and the
-- clock come with the steps. Closing a channel and the WaitGroup are no steps: the jobs are closed when none is
-- left, and the results when moreover all workers are idle.
-- Grpc/EtcdResolver: grpc/etcd.go, the resolver: the addresses of etcd's answers, the restarts of a watch, and
-- in Grpc/EtcdResolver/Watchers the contexts of the watches, a step being that of one goroutine.
-- Grpc/Schemes: grpc/resolver.go, the table of discoveries by scheme and its references, which wrap.
-- Prelude: numbers, lists, `int` with its 64 bits (Prelude/Int64), dictionaries.
--
-- Bounds: `int` counters wrap at 64 bits as written out in Prelude/Int64. A point in time is a natural
-- number of nanoseconds. There is no fuel: every loop is over a list or a counter.
--
-- Not modelled: what the parts of a framework do inside, logging, contexts and the waiting on signals,
-- and the packages that are not named above.
pub mod Prelude
pub mod Resilience
pub mod Framework
pub mod Gerr
pub mod Grpc
pub mod Clients
pub mod Lifecycle
mod Tests
