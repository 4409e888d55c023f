-- ===== src/Contract.antt =====
-- The entry points of ve/src/vedata.rs over the contract's whole storage.
pub mod Vault
pub mod Moves
pub mod World
pub mod Locks
pub mod Roles
pub mod PastVotes
pub mod CurrentVotes
pub mod Deposits
pub mod Create
pub mod Entry
pub mod Merge
pub mod Taken
pub mod Guard
pub mod Access
pub mod Tokens
pub mod Accepted
pub mod Delegates
pub mod Undated
pub mod Joined
pub mod Payments
pub mod Unfailing
