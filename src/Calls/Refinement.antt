-- ===== src/Calls/Refinement.antt =====
-- Every call of the contract, seen as a move of the vault of Contract/Vault.antt.
use casper_ve_cep.Prelude.{◌≡◌, refl, ap, Bool, true, false}
use casper_ve_cep.Exec.{done}
use casper_ve_cep.Host.{Env}
use casper_ve_cep.Token.State.{Token}
use casper_ve_cep.Token.Kept.{transfer_from-supply, approve-supply, set_token_meta-supply}
use casper_ve_cep.Contract.World.{World}
use casper_ve_cep.Contract.Locks.{
  increase_amount_for, increase_unlock_time, increase_amount, create_lock_for, create_lock, merge,
  deposit_for,
}
use casper_ve_cep.Contract.Roles.{delegate}
use casper_ve_cep.Contract.Delegates.{delegate-run}
use casper_ve_cep.Contract.Vault.{
  Move, rest, pay, open_lock, join_locks, is_join, move_vault, vault_of, Vault-eq, Moved,
  total_paid,
}
use casper_ve_cep.Contract.Joined.{merge-Moved}
use casper_ve_cep.Contract.Moves.{
  deposit_for-Moved, increase_amount_for-Moved, increase_amount-Moved, increase_unlock_time-Moved,
  create_lock-Moved, create_lock_for-Moved,
}
use casper_ve_cep.Calls.Signatures.{TokenCall, EscrowCall, Call, Value}
use casper_ve_cep.Calls.Dispatch.{run_token, run_escrow, run}
use casper_ve_cep.Calls.TokenCalls.{names_any, run_token-rule}
use casper_ve_cep.Calls.Quiet.{is_active, returning-done, run_escrow-Quiet}

-- What a call does to the vault.
unfoldable pub move_of : Call → Move
move_of (Call.escrow (EscrowCall.deposit_for id amount)) = pay id amount
move_of (Call.escrow (EscrowCall.increase_amount id amount)) = pay id amount
move_of (Call.escrow (EscrowCall.increase_amount_for id amount)) = pay id amount
move_of (Call.escrow (EscrowCall.increase_unlock_time id lock_duration)) = pay id 0
move_of (Call.escrow (EscrowCall.create_lock amount lock_duration)) = open_lock amount
move_of (Call.escrow (EscrowCall.create_lock_for amount lock_duration to)) = open_lock amount
move_of (Call.escrow (EscrowCall.merge from to)) = join_locks from to
move_of _ = rest

abbrev pub is_merge : Call → Bool
is_merge (Call.escrow (EscrowCall.merge from to)) = true
is_merge _ = false

pub move_of-is_join : (c : Call) → is_join (move_of c) ≡ is_merge c
unfolding move_of
move_of-is_join (Call.token c) = refl
move_of-is_join (Call.escrow (EscrowCall.merge from to)) = refl
move_of-is_join (Call.escrow c) = refl

module _ (env : Env) (w w' : World) {v : Value} where
  token-Moved : (c : TokenCall) → run_token env c w ≡ done v w' → Moved rest w w'
  unfolding vault_of move_vault
  token-Moved c h =
      let (counted, same, still, voted) =
        run_token-rule env {Named = λ k. Unit {0}} (λ s s'. s'.total_supply ≡ s.total_supply)
          (λ s. refl) (λ id m s s' e. set_token_meta-supply env s s' id m e)
          (λ k r ids s s' p q e. transfer_from-supply env k r ids s s' e)
          (λ spender ids s s' e. approve-supply env s s' spender ids e) (λ k e. tt) c w w'
          (names_any c) h in
      record {
        allowed = tt;
        vault = Vault-eq (λ id. rw same refl) (rw same refl) counted (ap total_paid still);
        guard = rw same refl;
      }

  quiet-Moved :
      (c : EscrowCall) → is_active c ≡ false → run_escrow env c w ≡ done v w' → Moved rest w w'
  unfolding vault_of move_vault
  quiet-Moved c q h =
      let quiet = run_escrow-Quiet env w w' c q h in
      record {
        allowed = tt;
        vault =
            Vault-eq (λ id. rw quiet.locked refl) quiet.supply
              (ap (λ (t : Token). t.total_supply) quiet.token) (ap total_paid quiet.paid);
        guard = quiet.guard;
      }

  escrow-Moved :
      (c : EscrowCall) → run_escrow env c w ≡ done v w' → Moved (move_of (Call.escrow c)) w w'
  unfolding run_escrow move_of move_vault vault_of
  escrow-Moved (EscrowCall.increase_amount_for id amount) h =
      let (u, e) = returning-done _ (increase_amount_for env id amount) w h in
      increase_amount_for-Moved env w w' id amount e
  escrow-Moved (EscrowCall.delegate x) h =
      let (u, e) = returning-done _ (delegate env x) w h in
      let (caller, called, votes, same, run_) = delegate-run env x w w' e in
      rw same (record { allowed = tt; vault = refl; guard = refl })
  escrow-Moved (EscrowCall.merge from to) h =
      let (u, e) = returning-done _ (merge env from to) w h in merge-Moved env w w' from to e
  escrow-Moved (EscrowCall.increase_unlock_time id amount) h =
      let (u, e) = returning-done _ (increase_unlock_time env id amount) w h in
      increase_unlock_time-Moved env w w' id amount e
  escrow-Moved (EscrowCall.increase_amount id amount) h =
      let (u, e) = returning-done _ (increase_amount env id amount) w h in
      increase_amount-Moved env w w' id amount e
  escrow-Moved (EscrowCall.create_lock_for amount lock_duration to) h =
      let (u, e) = returning-done _ (create_lock_for env amount lock_duration to) w h in
      create_lock_for-Moved env w w' amount lock_duration to e
  escrow-Moved (EscrowCall.create_lock amount lock_duration) h =
      let (u, e) = returning-done _ (create_lock env amount lock_duration) w h in
      create_lock-Moved env w w' amount lock_duration e
  escrow-Moved (EscrowCall.deposit_for id amount) h =
      let (u, e) = returning-done _ (deposit_for env id amount) w h in
      deposit_for-Moved env w w' id amount e
  escrow-Moved c h = quiet-Moved c refl h

  -- Every call of the contract that returns is one move of the vault: a payment into a lock that is
  -- not empty, the opening of the lock numbered after the total supply, the joining of one lock to
  -- another for a lower number of tokens, or nothing; and it leaves the guard as it was.
  pub run-Moved : (c : Call) → run env c w ≡ done v w' → Moved (move_of c) w w'
  unfolding run move_of
  run-Moved (Call.token c) h = token-Moved c h
  run-Moved (Call.escrow c) h = escrow-Moved c h
