-- ===== src/Lifecycle.antt =====
-- The package lifecycle: the order of shutting down.
pub mod Shutdown
pub mod Health
