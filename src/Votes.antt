-- ===== src/Votes.antt =====
-- Delegation of votes in ve/src/vedata.rs.
pub mod State
pub mod Delegation
pub mod Null
pub mod Undated
pub mod Latest
pub mod Unfailing
