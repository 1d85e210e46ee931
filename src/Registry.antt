-- ===== src/Registry.antt =====
-- The servers registry (apps/servers-registry): which game server handles which maps.
pub mod GameServer
pub mod Weights
pub mod Packing
pub mod Distributor
pub mod Lookup
pub mod Conservation
pub mod Balance
pub mod Distribution
pub mod Load
pub mod Service
pub mod Pending
pub mod Identity
pub mod Redistribution
pub mod Storage
pub mod Gateways
pub mod Choice
mod Examples
