-- ===== src/Chat.antt =====
-- The chat server (apps/chatserver): the channels, their members, owners, moderators and bans.
pub mod Model
pub mod Calls
pub mod Queries
pub mod Channel
pub mod Manager
pub mod Commands
pub mod Sweeps
pub mod Guards
pub mod Members
pub mod Owners
pub mod Undo
pub mod Invariant
pub mod Transfers
pub mod Pruning
pub mod Roster
pub mod History
pub mod Ownership
pub mod Entry
pub mod Refinement
pub mod Bans
pub mod Rights
pub mod Handover
pub mod Cleanup
mod Examples
