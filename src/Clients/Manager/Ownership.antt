-- ===== src/Clients/Manager/Ownership.antt =====
-- grpc_client.go: who has a client. Each that is opened is closed, or in a pool of the manager, or in one
-- that is being created.
pub mod Pools
pub mod Creating
pub mod Closing
pub mod Installing
pub mod Runs
