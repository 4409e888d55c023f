-- ===== src/Calls/Readers.antt =====
-- The entry points of ve/src/vedata.rs that only read, save those on votes.
use casper_ve_cep.Prelude.{ℕ, ℤ}
use casper_ve_cep.Exec.{Exec, ◌>>=◌, gets, narrow}
use casper_ve_cep.Host.{Env, Key, current_block_timestamp_seconds}
use casper_ve_cep.Escrow.State.{
  get_locked_balance, get_user_epoch, get_user_point, current_block_number,
}
use casper_ve_cep.Escrow.Voting.{
  total_supply_at_t, total_supply_at, balance_of_nft, balance_of_at_nft,
}
use casper_ve_cep.Contract.World.{World, on_escrow}

-- The slope of the last point of a token.
unfoldable pub get_last_user_slope : ℕ → Exec World ℤ
unfolding narrow
get_last_user_slope token_id_arg = do
  token_id ← narrow 64 token_id_arg
  gets (λ w. (get_user_point w.escrow token_id (get_user_epoch w.escrow token_id)).slope)

unfoldable pub user_point_history_ts : ℕ → ℕ → Exec World ℕ
unfolding narrow
user_point_history_ts token_id_arg epoch_index = do
  token_id ← narrow 64 token_id_arg
  gets (λ w. (get_user_point w.escrow token_id epoch_index).ts)

unfoldable pub locked_end : ℕ → Exec World ℕ
unfolding narrow
locked_end token_id_arg = do
  token_id ← narrow 64 token_id_arg
  gets (λ w. (get_locked_balance w.escrow token_id).end)

unfoldable pub balance_of_nft_at : ℕ → ℕ → Exec World ℕ
unfolding narrow
balance_of_nft_at token_id_arg epoch_time = do
  token_id ← narrow 64 token_id_arg
  gets (λ w. balance_of_nft w.escrow token_id epoch_time)

unfoldable pub get_past_total_supply : ℕ → Exec World ℕ
get_past_total_supply timestamp = gets (λ w. total_supply_at_t w.escrow timestamp)

-- The entry point `delegates` returns its argument.
abbrev pub delegates : Key → Exec World Key
delegates delegator = gets (λ w. delegator)

module _ (env : Env) where
  unfoldable pub ve_total_supply : Exec World ℕ
  ve_total_supply = gets (λ w. total_supply_at_t w.escrow (current_block_timestamp_seconds env))

  -- The entry points `balance_of_nft`, `balance_of_at_nft` and `total_supply_at` of the present.
  unfoldable pub balance_of_nft_now : ℕ → Exec World ℕ
  unfolding narrow
  balance_of_nft_now token_id_arg = do
    token_id ← narrow 64 token_id_arg
    gets (λ w. balance_of_nft w.escrow token_id (current_block_timestamp_seconds env))

  unfoldable pub balance_of_nft_at_block : ℕ → ℕ → Exec World ℕ
  unfolding narrow
  balance_of_nft_at_block token_id_arg block = do
    token_id ← narrow 64 token_id_arg
    on_escrow (
        balance_of_at_nft (current_block_timestamp_seconds env) current_block_number token_id block)

  unfoldable pub supply_at_block : ℕ → Exec World ℕ
  supply_at_block block =
      on_escrow (total_supply_at (current_block_timestamp_seconds env) current_block_number block)
