-- ===== src/Resilience.antt =====
-- The package resilience: circuit breaker, rate limiters, retries.
pub mod Breaker
pub mod BreakerManager
pub mod SlidingWindow
pub mod Retry
