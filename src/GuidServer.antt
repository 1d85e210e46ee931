-- ===== src/GuidServer.antt =====
-- The guid server (apps/guidserver/service): ranges of free GUIDs and the service that refills them.
pub mod Diapasons
pub mod Ranges
pub mod Issue
pub mod History
pub mod Service
pub mod Middleware
pub mod Merging
pub mod Waking
pub mod Refill
pub mod Startup
mod Examples
