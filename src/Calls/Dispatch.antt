-- ===== src/Calls/Dispatch.antt =====
-- The wrappers of ve/bin/ve.rs, the entry points of ve/src/vedata.rs under one function, and
-- histories of calls. A call that the host stops leaves the storage as it was.
use casper_ve_cep.Prelude.{ℕ, List, [], ◌∷◌, Bool}
use casper_ve_cep.Exec.{
  Exec, Outcome, done, failed, reverted, gets, result_or_revert, skip, narrow, ◌>>=◌,
}
use casper_ve_cep.Host.{Env, Key, CallStackElement}
use casper_ve_cep.Token.OwnedTokens.{get_token_by_index}
use casper_ve_cep.Token.Cep47.{
  balance_of, owner_of, token_meta, set_token_meta, transfer, transfer_from, approve, get_approved,
}
use casper_ve_cep.Escrow.Voting.{total_supply_at_t}
use casper_ve_cep.Contract.World.{World, on_token}
use casper_ve_cep.Contract.Locks.{
  increase_amount_for, merge, increase_unlock_time, increase_amount, create_lock_for, create_lock,
  deposit_for, check_point,
}
use casper_ve_cep.Contract.Roles.{
  get_past_votes_index, get_past_votes, delegate, get_votes, detach, attach, abstain, voting,
  set_voter, set_art_proxy, set_team,
}
use casper_ve_cep.Calls.Readers.{
  get_past_total_supply, delegates, ve_total_supply, supply_at_block, balance_of_nft_at_block,
  balance_of_nft_at, balance_of_nft_now, locked_end, user_point_history_ts, get_last_user_slope,
}
use casper_ve_cep.Calls.Signatures.{
  TokenCall, EscrowCall, Call, Value, unit_value, string_value, u64_value, u128_value, u256_value,
  key_value, meta_value, i128_value, optional_key, optional_meta, optional_id,
}

-- The result of an action, as a value of the host.
abbrev pub returning : {A : Type 0} → (A → Value) → Exec World A → Exec World Value
returning f m w = elim (m w) [
  | done a w' ↦ done (f a) w'
  | failed e w' ↦ failed e w'
  | reverted r ↦ reverted r
]

abbrev pub ending : Exec World (Unit {0}) → Exec World Value
ending = returning (λ u. unit_value)

module _ (env : Env) where
  -- The wrappers of ve/bin/ve.rs: arguments are decoded, an `Err` stops the call. `owner_of` prints the
  -- token id as a `u64`, and a larger one stops it.
  unfoldable pub run_token : TokenCall → Exec World Value
  unfolding narrow
  run_token TokenCall.name = gets (λ w. string_value w.token.name)
  run_token TokenCall.symbol = gets (λ w. string_value w.token.symbol)
  run_token TokenCall.meta = gets (λ w. meta_value w.token.meta)
  run_token TokenCall.total_supply = gets (λ w. u256_value w.token.total_supply)
  run_token (TokenCall.balance_of owner) = returning u256_value (on_token (balance_of env owner))
  run_token (TokenCall.get_token_by_index owner index) =
      gets (λ w. optional_id (get_token_by_index env w.token.owned owner index))
  run_token (TokenCall.owner_of id) = do
    shown ← narrow 64 id
    gets (λ w. optional_key (owner_of env w.token id))
  run_token (TokenCall.token_meta id) = gets (λ w. optional_meta (token_meta env w.token id))
  run_token (TokenCall.update_token_meta id m) =
      ending (on_token (result_or_revert (set_token_meta env id m)))
  run_token (TokenCall.transfer recipient ids) =
      ending (on_token (result_or_revert (transfer env recipient ids)))
  run_token (TokenCall.transfer_from sender recipient ids) =
      ending (on_token (result_or_revert (transfer_from env sender recipient ids)))
  run_token (TokenCall.approve spender ids) =
      ending (on_token (result_or_revert (approve env spender ids)))
  run_token (TokenCall.get_approved owner id) =
      gets (λ w. optional_key (get_approved env w.token owner id))

  unfoldable pub run_escrow : EscrowCall → Exec World Value
  run_escrow (EscrowCall.increase_amount_for id amount) = ending (increase_amount_for env id amount)
  run_escrow (EscrowCall.get_past_votes_index holder timestamp) =
      returning u64_value (get_past_votes_index env holder timestamp)
  run_escrow (EscrowCall.get_past_votes holder timestamp) =
      returning u128_value (get_past_votes env holder timestamp)
  run_escrow (EscrowCall.get_past_total_supply timestamp) =
      returning u128_value (get_past_total_supply timestamp)
  run_escrow (EscrowCall.delegate delegatee) = ending (delegate env delegatee)
  run_escrow (EscrowCall.get_votes holder) = returning u128_value (get_votes env holder)
  run_escrow (EscrowCall.delegates delegator) = returning key_value (delegates delegator)
  run_escrow (EscrowCall.merge from to) = ending (merge env from to)
  run_escrow (EscrowCall.detach id) = ending (detach env id)
  run_escrow (EscrowCall.attach id) = ending (attach env id)
  run_escrow (EscrowCall.abstain id) = ending (abstain env id)
  run_escrow (EscrowCall.voting id) = ending (voting env id)
  run_escrow (EscrowCall.set_voter voter) = ending (set_voter env voter)
  run_escrow (EscrowCall.total_supply_at_t t) =
      gets (λ w. u128_value (total_supply_at_t w.escrow t))
  run_escrow EscrowCall.ve_total_supply = returning u128_value (ve_total_supply env)
  run_escrow (EscrowCall.total_supply_at block) = returning u128_value (supply_at_block env block)
  run_escrow (EscrowCall.balance_of_at_nft id block) =
      returning u128_value (balance_of_nft_at_block env id block)
  run_escrow (EscrowCall.balance_of_nft_at id epoch_time) =
      returning u128_value (balance_of_nft_at id epoch_time)
  run_escrow (EscrowCall.balance_of_nft id) = returning u128_value (balance_of_nft_now env id)
  run_escrow EscrowCall.withdraw = ending skip
  run_escrow (EscrowCall.increase_unlock_time id lock_duration) =
      ending (increase_unlock_time env id lock_duration)
  run_escrow (EscrowCall.increase_amount id amount) = ending (increase_amount env id amount)
  run_escrow (EscrowCall.create_lock_for amount lock_duration to) =
      ending (create_lock_for env amount lock_duration to)
  run_escrow (EscrowCall.create_lock amount lock_duration) =
      ending (create_lock env amount lock_duration)
  run_escrow (EscrowCall.deposit_for id amount) = ending (deposit_for env id amount)
  run_escrow EscrowCall.check_point = ending (check_point env)
  run_escrow (EscrowCall.locked_end id) = returning u64_value (locked_end id)
  run_escrow (EscrowCall.user_point_history_ts id epoch_index) =
      returning u128_value (user_point_history_ts id epoch_index)
  run_escrow (EscrowCall.get_last_user_slope id) = returning i128_value (get_last_user_slope id)
  run_escrow (EscrowCall.set_art_proxy k) = ending (set_art_proxy env k)
  run_escrow (EscrowCall.set_team k) = ending (set_team env k)

  unfoldable pub run : Call → Exec World Value
  run (Call.token c) = run_token c
  run (Call.escrow c) = run_escrow c

-- The part of the host that changes from call to call.
pub record Context : Type 0 where
  pub call_stack : List CallStackElement
  pub block_time : ℕ
  pub transfer_accepted : Key → Key → Key → ℕ → Bool

abbrev pub at : Env → Context → Env
at env c = record env {
  call_stack = c.call_stack;
  block_time = c.block_time;
  transfer_accepted = c.transfer_accepted;
}

-- The storage after a call: an entry point ends with its result or is stopped, since its wrapper
-- turns an `Err` into a stop.
abbrev pub committed : {A : Type 0} → World → Outcome World A → World
committed w (done a w') = w'
committed w (failed e w') = w
committed w (reverted r) = w

abbrev pub History : Type 0
History = List (Context × Call)

unfoldable pub execute : Env → History → World → World
execute env [] w = w
execute env ((c, call) ∷ rest) w = execute env rest (committed w (run (at env c) call w))
