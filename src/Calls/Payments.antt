-- ===== src/Calls/Payments.antt =====
-- No call of the contract pays anything out.
use casper_ve_cep.Prelude.{◌≡◌, refl, some, [], ◌∷◌, inl, inr}
use casper_ve_cep.Exec.{done, Outcome-cases}
use casper_ve_cep.Host.{Env, Key, self_key}
use casper_ve_cep.Contract.World.{World}
use casper_ve_cep.Contract.Locks.{
  increase_amount_for, increase_unlock_time, increase_amount, create_lock_for, create_lock,
  deposit_for, merge,
}
use casper_ve_cep.Contract.Roles.{delegate}
use casper_ve_cep.Contract.Delegates.{delegate-run}
use casper_ve_cep.Contract.Merge.{merge-supply}
use casper_ve_cep.Contract.Payments.{
  IsPaidTo, deposit_for-IsPaidTo, increase_amount_for-IsPaidTo, increase_amount-IsPaidTo,
  increase_unlock_time-IsPaidTo, create_lock-IsPaidTo, create_lock_for-IsPaidTo,
}
use casper_ve_cep.Calls.Signatures.{EscrowCall, Call, Value}
use casper_ve_cep.Calls.Dispatch.{History, at, run_escrow, run, execute}
use casper_ve_cep.Calls.TokenCalls.{names_any, run_token-rule}
use casper_ve_cep.Calls.Quiet.{returning-done, run_escrow-Quiet}

module _ (env : Env) (me : Key) (self : self_key env ≡ some me) (w w' : World) where
  escrow-IsPaidTo :
      (c : EscrowCall) {v : Value}
      → IsPaidTo me w.transfers
      → run_escrow env c w ≡ done v w'
      → IsPaidTo me w'.transfers
  unfolding run_escrow
  escrow-IsPaidTo (EscrowCall.deposit_for id amount) p h =
      let (u, e) = returning-done _ (deposit_for env id amount) w h in
      deposit_for-IsPaidTo env me self w w' id amount p e
  escrow-IsPaidTo (EscrowCall.increase_amount_for id amount) p h =
      let (u, e) = returning-done _ (increase_amount_for env id amount) w h in
      increase_amount_for-IsPaidTo env me self w w' id amount p e
  escrow-IsPaidTo (EscrowCall.increase_amount id amount) p h =
      let (u, e) = returning-done _ (increase_amount env id amount) w h in
      increase_amount-IsPaidTo env me self w w' id amount p e
  escrow-IsPaidTo (EscrowCall.increase_unlock_time id lock_duration) p h =
      let (u, e) = returning-done _ (increase_unlock_time env id lock_duration) w h in
      increase_unlock_time-IsPaidTo env me self w w' id lock_duration p e
  escrow-IsPaidTo (EscrowCall.create_lock amount lock_duration) p h =
      let (u, e) = returning-done _ (create_lock env amount lock_duration) w h in
      create_lock-IsPaidTo env me self w w' amount lock_duration p e
  escrow-IsPaidTo (EscrowCall.create_lock_for amount lock_duration to) p h =
      let (u, e) = returning-done _ (create_lock_for env amount lock_duration to) w h in
      create_lock_for-IsPaidTo env me self w w' amount lock_duration to p e
  escrow-IsPaidTo (EscrowCall.merge from to) p h =
      let (u, e) = returning-done _ (merge env from to) w h in
      let (distinct, unpaid, supplied, merged, ended, lefts) = merge-supply env from to w w' e in
      rw unpaid p
  escrow-IsPaidTo (EscrowCall.delegate k) p h =
      let (u, e) = returning-done _ (delegate env k) w h in
      let (caller, called, votes, same, run_) = delegate-run env k w w' e in rw same p
  escrow-IsPaidTo c p h = rw (run_escrow-Quiet env w w' c refl h).paid p

  run-IsPaidTo :
      (c : Call) {v : Value}
      → IsPaidTo me w.transfers
      → run env c w ≡ done v w'
      → IsPaidTo me w'.transfers
  unfolding run
  run-IsPaidTo (Call.escrow c) p h = escrow-IsPaidTo c p h
  run-IsPaidTo (Call.token c) p h =
      let (t, same, still, voted) =
        run_token-rule env {Named = λ k. Unit {0}} (λ s s'. Unit {0}) (λ s. tt) (λ id m s s' e. tt)
          (λ k r ids s s' p' q e. tt) (λ spender ids s s' e. tt) (λ k e. tt) c w w' (names_any c)
          h in
      rw still p

-- The contract knows itself by the same key in every call of the history.
abbrev pub IsSelf : Env → Key → History → Type 0
IsSelf env me [] = Unit {0}
IsSelf env me ((c, call) ∷ h) = (self_key (at env c) ≡ some me) × IsSelf env me h

-- After any history of calls to the contract at its own key, by anyone and at any times, if every
-- payment that was recorded before went to the contract, every recorded payment goes to it: no call,
-- `withdraw` included, ever pays locked tokens out.
pub execute-IsPaidTo :
    (env : Env) (me : Key) (h : History) (w : World)
    → IsSelf env me h
    → IsPaidTo me w.transfers
    → IsPaidTo me (execute env h w).transfers
unfolding execute
execute-IsPaidTo env me [] w self p = p
execute-IsPaidTo env me ((c, call) ∷ h) w (here, self) p =
    elim (Outcome-cases (run (at env c) call w)) [
      | inl (v, w', e) ↦
          rw (execute, e)
            (execute-IsPaidTo env me h w' self (run-IsPaidTo (at env c) me here w w' call p e))
      | inr (inl (x, w', e)) ↦ rw (execute, e) (execute-IsPaidTo env me h w self p)
      | inr (inr (r, e)) ↦ rw (execute, e) (execute-IsPaidTo env me h w self p)
    ]
