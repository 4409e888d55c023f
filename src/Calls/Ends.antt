-- ===== src/Calls/Ends.antt =====
-- How an entry point ends: with its result, and what its method of the token returned, or stopped by
-- the host.
use casper_ve_cep.Prelude.{◌≡◌, ◌≢◌, ◌⊎◌, arith, inl, inr}
use casper_ve_cep.Errors.{Error}
use casper_ve_cep.Exec.{done, failed, reverted, Failure, narrow, Outcome-cases}
use casper_ve_cep.Host.{Env}
use casper_ve_cep.Token.OwnedTokens.{get_balances}
use casper_ve_cep.Contract.World.{World}
use casper_ve_cep.Contract.Locks.{
  increase_amount_for, increase_unlock_time, increase_amount, create_lock_for, create_lock,
  deposit_for, merge, check_point,
}
use casper_ve_cep.Contract.Roles.{
  get_past_votes_index, get_past_votes, delegate, get_votes, detach, attach, abstain, voting,
  set_voter, set_art_proxy, set_team,
}
use casper_ve_cep.Contract.Unfailing.{
  deposit_for-unfailing, increase_amount_for-unfailing, increase_amount-unfailing,
  increase_unlock_time-unfailing, create_lock-unfailing, create_lock_for-unfailing, merge-unfailing,
}
use casper_ve_cep.Calls.Readers.{
  get_past_total_supply, delegates, ve_total_supply, supply_at_block, balance_of_nft_at_block,
  balance_of_nft_at, balance_of_nft_now, locked_end, user_point_history_ts, get_last_user_slope,
}
use casper_ve_cep.Calls.Signatures.{TokenCall, EscrowCall, Call, Value, key_value}
use casper_ve_cep.Calls.TokenEffects.{TokenSucceeded, run-TokenSucceeded}
use casper_ve_cep.Calls.Dispatch.{run_token, run_escrow, run}
use casper_ve_cep.Calls.Unfailing.{
  returning-failed, get_past_votes_index-unfailing, get_past_votes-unfailing, get_votes-unfailing,
  get_past_total_supply-unfailing, delegates-unfailing, ve_total_supply-unfailing,
  supply_at_block-unfailing, balance_of_nft_at_block-unfailing, balance_of_nft_at-unfailing,
  balance_of_nft_now-unfailing, locked_end-unfailing, user_point_history_ts-unfailing,
  get_last_user_slope-unfailing, detach-unfailing, attach-unfailing, abstain-unfailing,
  voting-unfailing, set_voter-unfailing, set_art_proxy-unfailing, set_team-unfailing,
  check_point-unfailing, delegate-unfailing,
}

module _ (env : Env) (w w' : World) (e : Error) where
  run_token-unfailing : (c : TokenCall) → run_token env c w ≢ failed e w'
  unfolding run_token get_balances narrow
  run_token-unfailing TokenCall.name h = ground arith
  run_token-unfailing TokenCall.symbol h = ground arith
  run_token-unfailing TokenCall.meta h = ground arith
  run_token-unfailing TokenCall.total_supply h = ground arith
  run_token-unfailing (TokenCall.balance_of x) h = ground arith
  run_token-unfailing (TokenCall.get_token_by_index x y) h = ground arith
  run_token-unfailing (TokenCall.owner_of x) h = ground arith
  run_token-unfailing (TokenCall.token_meta x) h = ground arith
  run_token-unfailing (TokenCall.update_token_meta x y) h = ground arith
  run_token-unfailing (TokenCall.transfer x y) h = ground arith
  run_token-unfailing (TokenCall.transfer_from x y z) h = ground arith
  run_token-unfailing (TokenCall.approve x y) h = ground arith
  run_token-unfailing (TokenCall.get_approved x y) h = ground arith

module _ (env : Env) (w w' : World) (e : Error) where
  run_escrow-unfailing : (c : EscrowCall) → run_escrow env c w ≢ failed e w'
  unfolding run_escrow
  run_escrow-unfailing (EscrowCall.increase_amount_for x y) h =
      let (x', w₁, bad) = returning-failed _ (increase_amount_for env x y) w w' e h in
      increase_amount_for-unfailing env w w₁ x' x y bad
  run_escrow-unfailing (EscrowCall.get_past_votes_index x y) h =
      let (x', w₁, bad) = returning-failed _ (get_past_votes_index env x y) w w' e h in
      get_past_votes_index-unfailing env w w₁ x' x y bad
  run_escrow-unfailing (EscrowCall.get_past_votes x y) h =
      let (x', w₁, bad) = returning-failed _ (get_past_votes env x y) w w' e h in
      get_past_votes-unfailing env w w₁ x' x y bad
  run_escrow-unfailing (EscrowCall.get_past_total_supply x) h =
      let (x', w₁, bad) = returning-failed _ (get_past_total_supply x) w w' e h in
      get_past_total_supply-unfailing env w w₁ x' x bad
  run_escrow-unfailing (EscrowCall.delegate x) h =
      let (x', w₁, bad) = returning-failed _ (delegate env x) w w' e h in
      delegate-unfailing env w w₁ x' x bad
  run_escrow-unfailing (EscrowCall.get_votes x) h =
      let (x', w₁, bad) = returning-failed _ (get_votes env x) w w' e h in
      get_votes-unfailing env w w₁ x' x bad
  run_escrow-unfailing (EscrowCall.delegates x) h =
      let (x', w₁, bad) = returning-failed key_value (delegates x) w w' e h in
      delegates-unfailing env w w₁ x' x bad
  run_escrow-unfailing (EscrowCall.merge x y) h =
      let (x', w₁, bad) = returning-failed _ (merge env x y) w w' e h in
      merge-unfailing env w w₁ x' x y bad
  run_escrow-unfailing (EscrowCall.detach x) h =
      let (x', w₁, bad) = returning-failed _ (detach env x) w w' e h in
      detach-unfailing env w w₁ x' x bad
  run_escrow-unfailing (EscrowCall.attach x) h =
      let (x', w₁, bad) = returning-failed _ (attach env x) w w' e h in
      attach-unfailing env w w₁ x' x bad
  run_escrow-unfailing (EscrowCall.abstain x) h =
      let (x', w₁, bad) = returning-failed _ (abstain env x) w w' e h in
      abstain-unfailing env w w₁ x' x bad
  run_escrow-unfailing (EscrowCall.voting x) h =
      let (x', w₁, bad) = returning-failed _ (voting env x) w w' e h in
      voting-unfailing env w w₁ x' x bad
  run_escrow-unfailing (EscrowCall.set_voter x) h =
      let (x', w₁, bad) = returning-failed _ (set_voter env x) w w' e h in
      set_voter-unfailing env w w₁ x' x bad
  run_escrow-unfailing (EscrowCall.total_supply_at_t x) h = ground arith
  run_escrow-unfailing EscrowCall.ve_total_supply h =
      let (x', w₁, bad) = returning-failed _ (ve_total_supply env) w w' e h in
      ve_total_supply-unfailing env w w₁ x' bad
  run_escrow-unfailing (EscrowCall.total_supply_at x) h =
      let (x', w₁, bad) = returning-failed _ (supply_at_block env x) w w' e h in
      supply_at_block-unfailing env w w₁ x' x bad
  run_escrow-unfailing (EscrowCall.balance_of_at_nft x y) h =
      let (x', w₁, bad) = returning-failed _ (balance_of_nft_at_block env x y) w w' e h in
      balance_of_nft_at_block-unfailing env w w₁ x' x y bad
  run_escrow-unfailing (EscrowCall.balance_of_nft_at x y) h =
      let (x', w₁, bad) = returning-failed _ (balance_of_nft_at x y) w w' e h in
      balance_of_nft_at-unfailing env w w₁ x' x y bad
  run_escrow-unfailing (EscrowCall.balance_of_nft x) h =
      let (x', w₁, bad) = returning-failed _ (balance_of_nft_now env x) w w' e h in
      balance_of_nft_now-unfailing env w w₁ x' x bad
  run_escrow-unfailing EscrowCall.withdraw h = ground arith
  run_escrow-unfailing (EscrowCall.increase_unlock_time x y) h =
      let (x', w₁, bad) = returning-failed _ (increase_unlock_time env x y) w w' e h in
      increase_unlock_time-unfailing env w w₁ x' x y bad
  run_escrow-unfailing (EscrowCall.increase_amount x y) h =
      let (x', w₁, bad) = returning-failed _ (increase_amount env x y) w w' e h in
      increase_amount-unfailing env w w₁ x' x y bad
  run_escrow-unfailing (EscrowCall.create_lock_for x y z) h =
      let (x', w₁, bad) = returning-failed _ (create_lock_for env x y z) w w' e h in
      create_lock_for-unfailing env w w₁ x' x y z bad
  run_escrow-unfailing (EscrowCall.create_lock x y) h =
      let (x', w₁, bad) = returning-failed _ (create_lock env x y) w w' e h in
      create_lock-unfailing env w w₁ x' x y bad
  run_escrow-unfailing (EscrowCall.deposit_for x y) h =
      let (x', w₁, bad) = returning-failed _ (deposit_for env x y) w w' e h in
      deposit_for-unfailing env w w₁ x' x y bad
  run_escrow-unfailing EscrowCall.check_point h =
      let (x', w₁, bad) = returning-failed _ (check_point env) w w' e h in
      check_point-unfailing env w w₁ x' bad
  run_escrow-unfailing (EscrowCall.locked_end x) h =
      let (x', w₁, bad) = returning-failed _ (locked_end x) w w' e h in
      locked_end-unfailing env w w₁ x' x bad
  run_escrow-unfailing (EscrowCall.user_point_history_ts x y) h =
      let (x', w₁, bad) = returning-failed _ (user_point_history_ts x y) w w' e h in
      user_point_history_ts-unfailing env w w₁ x' x y bad
  run_escrow-unfailing (EscrowCall.get_last_user_slope x) h =
      let (x', w₁, bad) = returning-failed _ (get_last_user_slope x) w w' e h in
      get_last_user_slope-unfailing env w w₁ x' x bad
  run_escrow-unfailing (EscrowCall.set_art_proxy x) h =
      let (x', w₁, bad) = returning-failed _ (set_art_proxy env x) w w' e h in
      set_art_proxy-unfailing env w w₁ x' x bad
  run_escrow-unfailing (EscrowCall.set_team x) h =
      let (x', w₁, bad) = returning-failed _ (set_team env x) w w' e h in
      set_team-unfailing env w w₁ x' x bad

run-unfailing : (env : Env) (w w' : World) (e : Error) (c : Call) → run env c w ≢ failed e w'
unfolding run
run-unfailing env w w' e (Call.token c) h = run_token-unfailing env w w' e c h
run-unfailing env w w' e (Call.escrow c) h = run_escrow-unfailing env w w' e c h

-- Every call of an entry point either returns its result or is stopped by the host. Where it returns
-- and runs a method of the CEP-47 token that changes the token, that method, `mint` in `create_lock`
-- and `create_lock_for` and `burn` in `merge` included, has returned `Ok` and left exactly the token of
-- the resulting storage; where it runs none, the token is as it was. So no `Err` of the token is passed
-- over.
pub run_ends :
    (env : Env) (c : Call) (w : World)
    → ((v : Value) × (w' : World) × (run env c w ≡ done v w') × TokenSucceeded env c w w')
      ⊎ ((r : Failure) × (run env c w ≡ reverted r))
run_ends env c w = elim (Outcome-cases (run env c w)) [
  | inl (v, w', e) ↦ inl (v, w', e, run-TokenSucceeded env w w' c e)
  | inr (inr stopped) ↦ inr stopped
  | inr (inl (e, w', bad)) ↦ absurd (run-unfailing env w w' e c bad)
]
