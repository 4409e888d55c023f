-- ===== src/Calls/TokenEffects.antt =====
-- What a call that returns has done to the token (ve/bin/ve.rs, ve/src/vedata.rs).
use casper_ve_cep.Prelude.{◌≡◌, refl, ap, some, [], ◌∷◌, arith}
use casper_ve_cep.Exec.{done, narrow}
use casper_ve_cep.Host.{Env, Key, immediate_caller}
use casper_ve_cep.Token.Cep47.{transfer, transfer_from, approve, set_token_meta, burn, owner_of}
use casper_ve_cep.Token.OwnedTokens.{get_balances}
use casper_ve_cep.Contract.World.{World}
use casper_ve_cep.Contract.Locks.{
  increase_amount_for, increase_unlock_time, increase_amount, create_lock_for, create_lock,
  deposit_for, merge,
}
use casper_ve_cep.Contract.Roles.{delegate}
use casper_ve_cep.Contract.Delegates.{delegate-run}
use casper_ve_cep.Contract.Tokens.{
  deposit_for-token, increase_amount_for-token, increase_amount-token, increase_unlock_time-token,
  Minted, create_lock-Minted, create_lock_for-Minted, merge-burn,
}
use casper_ve_cep.Calls.Signatures.{TokenCall, EscrowCall, Call, Value}
use casper_ve_cep.Calls.Dispatch.{run_token, run_escrow, run}
use casper_ve_cep.Calls.TokenCalls.{on_token-run}
use casper_ve_cep.Calls.Quiet.{returning-done, run_escrow-Quiet}

-- The method of the CEP-47 token that a call runs has returned `Ok` and left exactly the token of
-- `w'`; a call that runs none has left the token as it was.
abbrev pub TokenSucceeded : Env → Call → World → World → Type 0
TokenSucceeded env (Call.token (TokenCall.update_token_meta id m)) w w' =
    set_token_meta env id m w.token ≡ done tt w'.token
TokenSucceeded env (Call.token (TokenCall.transfer recipient ids)) w w' =
    transfer env recipient ids w.token ≡ done tt w'.token
TokenSucceeded env (Call.token (TokenCall.transfer_from sender recipient ids)) w w' =
    transfer_from env sender recipient ids w.token ≡ done tt w'.token
TokenSucceeded env (Call.token (TokenCall.approve spender ids)) w w' =
    approve env spender ids w.token ≡ done tt w'.token
TokenSucceeded env (Call.escrow (EscrowCall.create_lock amount lock_duration)) w w' =
    (caller : Key) × (immediate_caller env ≡ some caller) × Minted env caller w.token w'.token
TokenSucceeded env (Call.escrow (EscrowCall.create_lock_for amount lock_duration to)) w w' =
    Minted env to w.token w'.token
TokenSucceeded env (Call.escrow (EscrowCall.merge from to)) w w' =
    (owner : Key) × (owner_of env w.token from ≡ some owner)
    × (burn env owner (from ∷ []) w.token ≡ done tt w'.token)
TokenSucceeded env _ w w' = w'.token ≡ w.token

module _ (env : Env) (w w' : World) where
  token-TokenSucceeded :
      (c : TokenCall) {v : Value}
      → run_token env c w ≡ done v w'
      → TokenSucceeded env (Call.token c) w w'
  unfolding run_token get_balances narrow
  token-TokenSucceeded (TokenCall.update_token_meta id m) h =
      (on_token-run (set_token_meta env id m) w h).0
  token-TokenSucceeded (TokenCall.transfer recipient ids) h =
      (on_token-run (transfer env recipient ids) w h).0
  token-TokenSucceeded (TokenCall.transfer_from sender recipient ids) h =
      (on_token-run (transfer_from env sender recipient ids) w h).0
  token-TokenSucceeded (TokenCall.approve spender ids) h =
      (on_token-run (approve env spender ids) w h).0
  token-TokenSucceeded c h = ground arith

  escrow-TokenSucceeded :
      (c : EscrowCall) {v : Value}
      → run_escrow env c w ≡ done v w'
      → TokenSucceeded env (Call.escrow c) w w'
  unfolding run_escrow
  escrow-TokenSucceeded (EscrowCall.deposit_for id amount) h =
      let (u, e) = returning-done _ (deposit_for env id amount) w h in
      deposit_for-token env w w' id amount e
  escrow-TokenSucceeded (EscrowCall.increase_amount_for id amount) h =
      let (u, e) = returning-done _ (increase_amount_for env id amount) w h in
      increase_amount_for-token env w w' id amount e
  escrow-TokenSucceeded (EscrowCall.increase_amount id amount) h =
      let (u, e) = returning-done _ (increase_amount env id amount) w h in
      increase_amount-token env w w' id amount e
  escrow-TokenSucceeded (EscrowCall.increase_unlock_time id lock_duration) h =
      let (u, e) = returning-done _ (increase_unlock_time env id lock_duration) w h in
      increase_unlock_time-token env w w' id lock_duration e
  escrow-TokenSucceeded (EscrowCall.create_lock amount lock_duration) h =
      let (u, e) = returning-done _ (create_lock env amount lock_duration) w h in
      create_lock-Minted env amount lock_duration w w' e
  escrow-TokenSucceeded (EscrowCall.create_lock_for amount lock_duration to) h =
      let (u, e) = returning-done _ (create_lock_for env amount lock_duration to) w h in
      create_lock_for-Minted env amount lock_duration to w w' e
  escrow-TokenSucceeded (EscrowCall.merge from to) h =
      let (u, e) = returning-done _ (merge env from to) w h in
      let (owner, owned, burnt, guard) = merge-burn env from to w w' e in (owner, owned, burnt)
  escrow-TokenSucceeded (EscrowCall.delegate k) h =
      let (u, e) = returning-done _ (delegate env k) w h in
      let (caller, called, votes, same, run_) = delegate-run env k w w' e in
      ap (λ (x : World). x.token) same
  escrow-TokenSucceeded c h = (run_escrow-Quiet env w w' c refl h).token

  pub run-TokenSucceeded :
      (c : Call) {v : Value} → run env c w ≡ done v w' → TokenSucceeded env c w w'
  unfolding run
  run-TokenSucceeded (Call.token c) h = token-TokenSucceeded c h
  run-TokenSucceeded (Call.escrow c) h = escrow-TokenSucceeded c h
