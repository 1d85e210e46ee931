-- ===== src/Guilds.antt =====
-- The guild server (apps/guildserver): guilds, their ranks and rights, members and invites.
pub mod Model
pub mod World
pub mod Cache
pub mod Lookup
pub mod Service
pub mod Settings
pub mod Ranks
pub mod Promotion
pub mod Membership
pub mod Accepting
pub mod Consistency
pub mod Calls
mod Examples
