-- ===== src/Tests.antt =====
-- The theorems at concrete inputs, and runs of the modelled code.
mod Breakers
mod Windows
mod Frameworks
mod Balancers
mod Shutdowns
mod Retries
mod Registries
mod Gerrs
mod Etcds
mod Clients
mod Healths
mod Resolvers
mod Schemes
