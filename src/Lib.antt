-- ===== src/Lib.antt =====
-- The vote-escrow contract (ve/): a CEP-47 token whose tokens are locks of an ERC-20 token. A lock has
-- an amount and an end; its voting power decays linearly until then. The contract keeps the history of
-- the total power as points, one for each change and each week, schedules the slope changes at the ends
-- of locks, and lets an address delegate its tokens to a representative.
--
-- Parts and files:
-- - Prelude, with Prelude/Tests, Prelude/Lists, Prelude/Int and Prelude/Words: Boolean tests on numbers,
--   texts as lists of character codes (`to_string` is the decimal notation), signed integers, and the
--   machine words: `add_u64`, `sub_u128`, `mul_i128` and their like wrap around as in a build without
--   overflow checks.
-- - Errors: the enums `VeError` of ve/src/error.rs and `Error` of ve/src/cep47.rs with their codes.
-- - Exec: a call as a function of the storage with three outcomes. `done` returns, `failed` is `Err(e)`
--   and keeps what was written, `reverted` is a call that the host stops and undoes: `runtime::revert`,
--   `unwrap_or_revert`, a panic. `U256` additions and subtractions and `as_u64` panic where the value
--   does not fit.
-- - Host: ve/src/utils.rs and ve/src/dict.rs. The functions of the host and of foreign crates (the text
--   of an address, the byte encodings, `blake2b` with `hex::encode`, the call stack, the block time, the
--   answer of the ERC-20 token) are the record `Env`, an argument of whatever uses them.
--   Host/Addresses has `NoCollision`: the addresses in use are filed under different texts.
-- - Token: the storage of ve/src/data.rs (Token/State, Token/OwnedTokens) and the methods of
--   `trait CEP47` of ve/src/cep47.rs (Token/Cep47). Token/WellFormed has the invariant: `Owners` and
--   `OwnedTokens` agree, and the tokens of an address are numbered from 0 without gaps.
-- - Escrow: ve/src/vedata.rs. Escrow/State has the storage, Escrow/CheckPoint is `_check_point`,
--   Escrow/Voting has `_balance_of_nft`, `_balance_of_at_nft`, `_find_block_epoch`, `_supply_at` and
--   `total_supply_at`, and Escrow/Bytes the byte formats of stored records, also of ve/src/I128.rs.
-- - Votes: ve/src/vedata.rs, section DAO VOTING STORAGE. Votes/State has the storage, Votes/Delegation
--   is `_move_token_delegates`, `_move_all_delegates` and `_delegate`.
-- - Contract: the storage of all three (Contract/World), with the guard of ve/src/lock.rs, the call of
--   ve/src/erc20_helpers.rs and `constructor` of ve/bin/ve.rs; the entry points of locks
--   (Contract/Locks) and of team, voter and votes (Contract/Roles), both of ve/src/vedata.rs.
-- - Calls: the contract as its callers see it. Calls/Signatures has the calls with their decoded
--   arguments and the values they return, Calls/Signatures/Tables both `get_entry_points` of
--   ve/bin/ve.rs and ve/src/vedata.rs, Calls/Signatures/Returns the types of what the wrappers
--   return.
--   Calls/Readers has the entry points that only read, Calls/Dispatch the wrappers and `execute`, the
--   run of a history: a list of calls, each with its own caller, block time and answers of the ERC-20
--   token. A call that is stopped leaves the storage as it was.
-- - Tests: runs at concrete storage, in files by part.
-- The files below Token/Cep47, Token/OwnedTokens, Escrow/CheckPoint and Escrow/Voting, and the others of
-- Token, Votes, Contract and Calls, hold the theorems on the code of their part.
--
-- The vault of Contract/Vault is the contract without time: what each token has locked, the supply, the
-- number of tokens and the sum of the payments. A call is seen as a move of it: Contract/Moves and
-- Contract/Joined for the calls on locks, Calls/Refinement for every call.
--
-- An entry point of locks calls `mint` or `burn` of the token, moves delegates, and ends in
-- `_deposit_for`, which writes the lock, calls `_check_point` and draws the payment. A dictionary is a
-- function from item keys to values. A helper that returns an `Option` of the storage is a function of
-- the state; a method with `&mut self` or a revert is an action.
--
-- Bounds: the loops over `0..255` and `0..128` are recursions on the rounds left, with the rounds of the
-- source; 255 rounds reach the present from a point less than 255 weeks old, and 128 rounds are enough
-- for a binary search of fewer than 2^63 points. The `while` loop of `_get_past_votes_index` has the
-- number of checkpoints as fuel, and the distance of its bounds, which is less, falls in every round.
--
-- Assumptions: the storage is initialised, the encodings of the host are the same in every call,
-- arguments arrive decoded, the ERC-20 token does not call back, and the contract is compiled in the
-- release profile of the Makefile.
--
-- Not modelled: the decoding of arguments and encoding of results, the installation by `call`, the
-- readers of ve/src/erc20_helpers.rs, and the test crates cep47-tests/ and tests/. The dictionaries of
-- the model hold decoded values.
pub mod Prelude
pub mod Errors
pub mod Exec
pub mod Host
pub mod Token
pub mod Escrow
pub mod Votes
pub mod Contract
pub mod Tests
pub mod Calls
