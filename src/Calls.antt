-- ===== src/Calls.antt =====
-- The contract as its callers see it: the entry points with their arguments, and histories of calls.
pub mod Attachments
pub mod Signatures
pub mod Readers
pub mod Dispatch
pub mod Typing
pub mod TokenCalls
pub mod TokenEffects
pub mod Quiet
pub mod Roles
pub mod Refinement
pub mod Funding
pub mod Ownership
pub mod Histories
pub mod Liveness
pub mod Undated
pub mod PastVotes
pub mod Overcount
pub mod Payments
pub mod Drawn
pub mod Unfailing
pub mod Ends
