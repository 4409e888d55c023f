-- ===== src/Calls/Ownership.antt =====
-- Calls keep the token well-formed and the guard of ve/src/lock.rs open.
use casper_ve_cep.Prelude.{◌≡◌, refl, ◌∙◌, false, some, add_u64}
use casper_ve_cep.Exec.{done}
use casper_ve_cep.Host.{Env, Key, immediate_caller}
use casper_ve_cep.Host.Addresses.{NoCollision}
use casper_ve_cep.Token.State.{Token}
use casper_ve_cep.Token.WellFormed.{IsWellFormed}
use casper_ve_cep.Token.Kept.{Kept, transfer_from-Kept, approve-Kept, set_token_meta-Kept}
use casper_ve_cep.Token.Single.{mint-returned, burn-returned}
use casper_ve_cep.Contract.World.{World}
use casper_ve_cep.Contract.Locks.{
  increase_amount_for, increase_unlock_time, increase_amount, create_lock_for, create_lock,
  deposit_for, merge,
}
use casper_ve_cep.Contract.Roles.{delegate}
use casper_ve_cep.Contract.Delegates.{delegate-run}
use casper_ve_cep.Contract.Tokens.{
  deposit_for-token, increase_amount_for-token, increase_amount-token, increase_unlock_time-token,
  Minted, create_lock-Minted, create_lock_for-Minted, merge-burn,
}
use casper_ve_cep.Calls.Signatures.{TokenCall, EscrowCall, Call, Value}
use casper_ve_cep.Calls.Dispatch.{run_token, run_escrow, run}
use casper_ve_cep.Calls.TokenCalls.{TokenNames, run_token-rule}
use casper_ve_cep.Calls.Quiet.{returning-done, run_escrow-Quiet}
use casper_ve_cep.Calls.Refinement.{run-Moved}

-- The keys that a call names as holders of tokens.
abbrev pub Names : (Key → Type 0) → Call → Type 0
Names InUse (Call.token c) = TokenNames InUse c
Names InUse (Call.escrow (EscrowCall.create_lock_for amount lock_duration to)) = InUse to
Names InUse _ = Unit {0}

pub record IsSound (env : Env) (InUse : Key → Type 0) (w : World) : Type 0 where
  pub token : IsWellFormed env InUse w.token
  pub unlocked : w.escrow.is_locked ≡ false

Kept-refl :
    {env : Env} {InUse : Key → Type 0} (s : Token) → IsWellFormed env InUse s → Kept env InUse s s
Kept-refl s w = record { valid = w; unowned = λ v e. e; supply = refl }

module _ {env : Env} {InUse : Key → Type 0} (free : NoCollision env InUse)
    (caller_in_use : (k : Key) → immediate_caller env ≡ some k → InUse k) (w w' : World) where
  pub token-Kept :
      (c : TokenCall) {v : Value}
      → TokenNames InUse c
      → IsWellFormed env InUse w.token
      → run_token env c w ≡ done v w'
      → Kept env InUse w.token w'.token × (w'.escrow ≡ w.escrow)
  token-Kept c n valid h =
      let (kept, same, still, voted) =
        run_token-rule env {Named = InUse} (λ s s'. IsWellFormed env InUse s → Kept env InUse s s')
          (λ s q. Kept-refl s q) (λ id m s s' e q. set_token_meta-Kept s s' q id m e)
          (λ k r ids s s' p q e u. transfer_from-Kept free k r p q ids s s' u e)
          (λ spender ids s s' e q. approve-Kept s s' q spender ids e) caller_in_use c w w' n h in
      (kept valid, same)

  Minted-IsWellFormed :
      (k : Key)
      → InUse k
      → IsWellFormed env InUse w.token
      → Minted env k w.token w'.token
      → IsWellFormed env InUse w'.token
  Minted-IsWellFormed k p valid (ids, minted) =
      let (new, kept, owners, counted) =
        mint-returned free k p (add_u64 w.token.total_supply 1) w.token w'.token valid ids minted in
      kept

  escrow-IsWellFormed :
      (c : EscrowCall) {v : Value}
      → Names InUse (Call.escrow c)
      → IsWellFormed env InUse w.token
      → run_escrow env c w ≡ done v w'
      → IsWellFormed env InUse w'.token
  unfolding run_escrow
  escrow-IsWellFormed (EscrowCall.increase_amount_for id amount) n s h =
      let (u, e) = returning-done _ (increase_amount_for env id amount) w h in
      rw (increase_amount_for-token env w w' id amount e) s
  escrow-IsWellFormed (EscrowCall.delegate x) n s h =
      let (u, e) = returning-done _ (delegate env x) w h in
      let (caller, called, votes, same, run_) = delegate-run env x w w' e in rw same s
  escrow-IsWellFormed (EscrowCall.merge from to) n s h =
      let (u, e) = returning-done _ (merge env from to) w h in
      let (owner, owned, burnt, guard) = merge-burn env from to w w' e in
      burn-returned free owner (s.owner_in_use from owner owned) from w.token w'.token s burnt
  escrow-IsWellFormed (EscrowCall.increase_unlock_time id amount) n s h =
      let (u, e) = returning-done _ (increase_unlock_time env id amount) w h in
      rw (increase_unlock_time-token env w w' id amount e) s
  escrow-IsWellFormed (EscrowCall.increase_amount id amount) n s h =
      let (u, e) = returning-done _ (increase_amount env id amount) w h in
      rw (increase_amount-token env w w' id amount e) s
  escrow-IsWellFormed (EscrowCall.create_lock_for amount lock_duration to) n s h =
      let (u, e) = returning-done _ (create_lock_for env amount lock_duration to) w h in
      Minted-IsWellFormed to n s (create_lock_for-Minted env amount lock_duration to w w' e)
  escrow-IsWellFormed (EscrowCall.create_lock amount lock_duration) n s h =
      let (u, e) = returning-done _ (create_lock env amount lock_duration) w h in
      let (caller, called, minted) = create_lock-Minted env amount lock_duration w w' e in
      Minted-IsWellFormed caller (caller_in_use caller called) s minted
  escrow-IsWellFormed (EscrowCall.deposit_for id amount) n s h =
      let (u, e) = returning-done _ (deposit_for env id amount) w h in
      rw (deposit_for-token env w w' id amount e) s
  escrow-IsWellFormed c n s h = rw (run_escrow-Quiet env w w' c refl h).token s

  -- Whatever call returns leaves the guard as it was.
  guard-run :
      (c : Call) {v : Value} → run env c w ≡ done v w' → w'.escrow.is_locked ≡ w.escrow.is_locked
  unfolding run run_escrow
  guard-run c h = (run-Moved env w w' c h).guard

  -- A call by an address in use that names only addresses in use as holders, whichever it is, leaves
  -- the token well-formed and the guard open when it returns.
  pub run-IsSound :
      (c : Call) {v : Value}
      → Names InUse c
      → IsSound env InUse w
      → run env c w ≡ done v w'
      → IsSound env InUse w'
  unfolding run
  run-IsSound (Call.token c) n s h = record {
    token = (token-Kept c n s.token h).0.valid;
    unlocked = guard-run (Call.token c) h ∙ s.unlocked;
  }
  run-IsSound (Call.escrow c) n s h = record {
    token = escrow-IsWellFormed c n s.token h;
    unlocked = guard-run (Call.escrow c) h ∙ s.unlocked;
  }
