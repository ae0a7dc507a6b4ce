-- ===== src/Clients.antt =====
-- grpc_client.go: the manager of the clients of many services, each with a pool of connections.
pub mod Pool
pub mod Manager
