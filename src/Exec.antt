-- ===== src/Exec.antt =====
-- Execution of contract code: state passing with the three ways in which a call can end. A Rust
-- function returns, returns `Err(e)`, or the runtime stops the whole call (`runtime::revert`,
-- `unwrap_or_revert`, a panic). The host undoes every write of a call that is stopped, so that case
-- carries no state, while `Err(e)` keeps what was written before it.
mod Defs
unfoldable pub use Defs.*
