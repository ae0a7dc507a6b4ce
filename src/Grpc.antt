-- ===== src/Grpc.antt =====
-- The package grpc: the balancer of a client and the registration of a server.
pub mod Balancer
pub mod Registry
pub mod EtcdRegistry
pub mod EtcdResolver
pub mod Schemes
