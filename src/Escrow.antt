-- ===== src/Escrow.antt =====
-- The vote escrow of ve/src/vedata.rs: locks, points and voting power.
pub mod State
pub mod CheckPoint
pub mod Voting
pub mod Bytes
