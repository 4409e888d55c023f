-- ===== src/Tests.antt =====
-- Runs of the contract at concrete storage, which show that the hypotheses of the theorems hold there.
pub mod Setting
pub mod Tokens
pub mod Locks
pub mod Points
pub mod Formats
pub mod Calls
pub mod Votes
