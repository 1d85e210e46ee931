-- ===== src/Matchmaking.antt =====
-- The matchmaking server (apps/matchmakingserver): battlegrounds with their slots, and the queue that
-- groups wait in.
pub mod Battleground
pub mod Selection
pub mod Queue
pub mod Fitting
pub mod Balanced
pub mod Membership
pub mod Slots
pub mod Links
pub mod Leaving
mod Examples
