-- ===== src/Token.antt =====
-- The CEP-47 token: ve/src/data.rs, ve/src/cep47.rs and ve/src/event.rs.
pub mod OwnedTokens
pub mod State
pub mod Cep47
pub mod WellFormed
pub mod Kept
pub mod Single
