-- ===== src/Groups.antt =====
-- The group server (apps/groupserver): groups, the in-memory cache with its pointers, the service.
pub mod Model
pub mod World
pub mod Maps
pub mod Cells
pub mod Cache
pub mod Parts
pub mod Membership
pub mod Settings
pub mod Arrays
pub mod Pointers
pub mod Presence
pub mod Removal
pub mod Rights
pub mod Uninvite
pub mod Lifecycle
pub mod Joining
pub mod Icons
mod Examples
