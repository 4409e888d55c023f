-- ===== src/Calls/Undated.antt =====
-- The checkpoints of votes under all calls.
use casper_ve_cep.Prelude.{◌≡◌, refl}
use casper_ve_cep.Exec.{done}
use casper_ve_cep.Host.{Env}
use casper_ve_cep.Votes.Undated.{IsUndated}
use casper_ve_cep.Contract.World.{World}
use casper_ve_cep.Contract.Locks.{
  increase_amount_for, merge, increase_unlock_time, increase_amount, create_lock_for, create_lock,
  deposit_for,
}
use casper_ve_cep.Contract.Roles.{delegate}
use casper_ve_cep.Calls.Signatures.{EscrowCall, Call, Value}
use casper_ve_cep.Calls.Dispatch.{run_escrow, run}
use casper_ve_cep.Calls.TokenCalls.{run_token-rule, names_any}
use casper_ve_cep.Calls.Quiet.{returning-done, run_escrow-Quiet}
use casper_ve_cep.Contract.Undated.{
  delegate-IsUndated, create_lock-IsUndated, create_lock_for-IsUndated, merge-IsUndated,
  deposit_for-votes, increase_amount_for-votes, increase_amount-votes, increase_unlock_time-votes,
}

undated : (w w' : World) → w'.votes ≡ w.votes → IsUndated w.votes → IsUndated w'.votes
undated w w' e u = rw e u

module _ (env : Env) (w w' : World) where
  escrow-IsUndated :
      (c : EscrowCall) {v : Value}
      → IsUndated w.votes
      → run_escrow env c w ≡ done v w'
      → IsUndated w'.votes
  unfolding run_escrow
  escrow-IsUndated (EscrowCall.increase_amount_for x y) u h =
      let (a, e) = returning-done _ (increase_amount_for env x y) w h in
      undated w w' (increase_amount_for-votes env w w' x y e) u
  escrow-IsUndated (EscrowCall.delegate x) u h =
      let (a, e) = returning-done _ (delegate env x) w h in delegate-IsUndated env w w' x u e
  escrow-IsUndated (EscrowCall.merge x y) u h =
      let (a, e) = returning-done _ (merge env x y) w h in merge-IsUndated env w w' x y u e
  escrow-IsUndated (EscrowCall.increase_unlock_time x y) u h =
      let (a, e) = returning-done _ (increase_unlock_time env x y) w h in
      undated w w' (increase_unlock_time-votes env w w' x y e) u
  escrow-IsUndated (EscrowCall.increase_amount x y) u h =
      let (a, e) = returning-done _ (increase_amount env x y) w h in
      undated w w' (increase_amount-votes env w w' x y e) u
  escrow-IsUndated (EscrowCall.create_lock_for x y z) u h =
      let (a, e) = returning-done _ (create_lock_for env x y z) w h in
      create_lock_for-IsUndated env w w' x y z u e
  escrow-IsUndated (EscrowCall.create_lock x y) u h =
      let (a, e) = returning-done _ (create_lock env x y) w h in
      create_lock-IsUndated env w w' x y u e
  escrow-IsUndated (EscrowCall.deposit_for x y) u h =
      let (a, e) = returning-done _ (deposit_for env x y) w h in
      undated w w' (deposit_for-votes env w w' x y e) u
  escrow-IsUndated c u h = undated w w' (run_escrow-Quiet env w w' c refl h).votes u

  -- A call that returns leaves every checkpoint of votes with the timestamp 0.
  pub run-IsUndated :
      (c : Call) {v : Value} → IsUndated w.votes → run env c w ≡ done v w' → IsUndated w'.votes
  unfolding run
  run-IsUndated (Call.escrow c) u h = escrow-IsUndated c u h
  run-IsUndated (Call.token c) u h =
      let (t, same, still, voted) =
        run_token-rule env {Named = λ k. Unit {0}} (λ s s'. Unit {0}) (λ s. tt) (λ id m s s' e. tt)
          (λ k r ids s s' p q e. tt) (λ spender ids s s' e. tt) (λ k e. tt) c w w' (names_any c)
          h in
      undated w w' voted u
