-- ===== src/Contract/Moves.antt =====
-- The calls of ve/src/vedata.rs that pay into a lock or open one, as moves of the vault.
use casper_ve_cep.Prelude.{ℕ, ◌<◌, ◌≡◌, refl, ◌∙◌, ap, sym, arith, true, false, inl, inr}
use casper_ve_cep.Exec.{done, Outcome-cases, narrow}
use casper_ve_cep.Host.{Env, Key, get_immediate_caller_key}
use casper_ve_cep.Token.State.{Token}
use casper_ve_cep.Token.Single.{mint-inversion}
use casper_ve_cep.Escrow.State.{
  Escrow, get_locked_balance, deposit_for_type, create_lock_type, increase_lock_amount,
  increase_unlock_time_type,
}
use casper_ve_cep.Contract.World.{World, when_not_locked, lock_contract, unlock_contract}
use casper_ve_cep.Contract.Locks.{
  now, unlock_time_of, deposit_for_internal, deposit_for, increase_amount_for, increase_amount,
  increase_unlock_time, require_approved_or_owner, create_lock_internal, create_lock_for,
  create_lock,
}
use casper_ve_cep.Contract.Deposits.{deposit_for_internal-Deposited}
use casper_ve_cep.Contract.Guard.{require_approved_or_owner-frame}
use casper_ve_cep.Contract.Create.{create_lock_internal-deposit, create_lock_internal-tests}
use casper_ve_cep.Contract.Entry.{guarded, create_lock-run, create_lock_for-run}
use casper_ve_cep.Contract.Vault.{
  Move, pay, open_lock, move_vault, vault_of, Vault-eq, Moved, deposit-Moved, total_paid-deposit,
}

module _ (env : Env) where
  pub deposit_for-run :
      (id amount : ℕ) (w w' : World)
      → deposit_for env id amount w ≡ done tt w'
      → (0 < (get_locked_balance w.escrow id).amount)
        × (deposit_for_internal env id amount 0 (get_locked_balance w.escrow id) deposit_for_type w
            ≡ done tt w')
  unfolding deposit_for narrow
  deposit_for-run id amount w w' h = (ground arith, ground arith)

  pub increase_amount_for-run :
      (id amount : ℕ) (w w' : World)
      → increase_amount_for env id amount w ≡ done tt w'
      → (0 < (get_locked_balance w.escrow id).amount)
        × (deposit_for_internal env id amount 0
              (get_locked_balance w.escrow id)
              increase_lock_amount
              w
            ≡ done tt w')
  unfolding increase_amount_for narrow get_immediate_caller_key
  increase_amount_for-run id amount w w' h = (ground arith, ground arith)

  pub increase_amount-run :
      (id amount : ℕ) (w w' : World)
      → increase_amount env id amount w ≡ done tt w'
      → (w.escrow.is_locked ≡ false)
        × (0 < (get_locked_balance w.escrow id).amount)
        × (w₁ : World) × (w' ≡ guarded false w₁)
        × (deposit_for_internal env id amount 0
              (get_locked_balance w.escrow id)
              increase_lock_amount
              (guarded true w)
            ≡ done tt w₁)
  unfolding increase_amount narrow when_not_locked lock_contract unlock_contract
  increase_amount-run id amount w w' h = elim (Outcome-cases (require_approved_or_owner env id w)) [
    | inr (inl (e, t, bad)) ↦ absurd (ground arith)
    | inr (inr (f, bad)) ↦ absurd (ground arith)
    | inl (u, w₀, passed) ↦
        let same = require_approved_or_owner-frame env id w w₀ passed in
        elim (Outcome-cases (
          deposit_for_internal env id amount 0 (get_locked_balance w.escrow id) increase_lock_amount
            (guarded true w))) [
              | inr (inl (e, t, bad)) ↦ absurd (ground arith)
              | inr (inr (f, bad)) ↦ absurd (ground arith)
              | inl (v, w₁, run) ↦ (ground arith, ground arith, w₁, ground arith, run)
            ]
  ]

  pub increase_unlock_time-run :
      (id lock_duration : ℕ) (w w' : World)
      → increase_unlock_time env id lock_duration w ≡ done tt w'
      → (w.escrow.is_locked ≡ false)
        × (0 < (get_locked_balance w.escrow id).amount)
        × (w₁ : World) × (w' ≡ guarded false w₁)
        × (deposit_for_internal env id 0
              (unlock_time_of (now env) lock_duration)
              (get_locked_balance w.escrow id)
              increase_unlock_time_type
              (guarded true w)
            ≡ done tt w₁)
  unfolding increase_unlock_time when_not_locked lock_contract unlock_contract
  increase_unlock_time-run id lock_duration w w' h =
      elim (Outcome-cases (require_approved_or_owner env id w)) [
        | inr (inl (e, t, bad)) ↦ absurd (ground arith)
        | inr (inr (f, bad)) ↦ absurd (ground arith)
        | inl (u, w₀, passed) ↦
            let same = require_approved_or_owner-frame env id w w₀ passed in
            elim (Outcome-cases (
              deposit_for_internal env id 0 (unlock_time_of (now env) lock_duration)
                (get_locked_balance w.escrow id) increase_unlock_time_type (guarded true w))) [
                  | inr (inl (e, t, bad)) ↦ absurd (ground arith)
                  | inr (inr (f, bad)) ↦ absurd (ground arith)
                  | inl (v, w₁, run) ↦ (ground arith, ground arith, w₁, ground arith, run)
                ]
      ]

-- A move of the locked contract is one of the contract.
unguarded-Moved :
    {m : Move} {w w' w₁ : World}
    → w.escrow.is_locked ≡ false
    → w' ≡ guarded false w₁
    → Moved m (guarded true w) w₁
    → Moved m w w'
unfolding vault_of
unguarded-Moved open_ same moved =
    rw same (record { allowed = moved.allowed; vault = moved.vault; guard = sym open_ })

module _ (env : Env) (w w' : World) where
  pub deposit_for-Moved :
      (id amount : ℕ) → deposit_for env id amount w ≡ done tt w' → Moved (pay id amount) w w'
  deposit_for-Moved id amount h =
      let (held, run) = deposit_for-run env id amount w w' h in
      deposit-Moved w w' (deposit_for_internal-Deposited env id amount 0 _ _ w w' run) refl held

  pub increase_amount_for-Moved :
      (id amount : ℕ)
      → increase_amount_for env id amount w ≡ done tt w'
      → Moved (pay id amount) w w'
  increase_amount_for-Moved id amount h =
      let (held, run) = increase_amount_for-run env id amount w w' h in
      deposit-Moved w w' (deposit_for_internal-Deposited env id amount 0 _ _ w w' run) refl held

  pub increase_amount-Moved :
      (id amount : ℕ) → increase_amount env id amount w ≡ done tt w' → Moved (pay id amount) w w'
  increase_amount-Moved id amount h =
      let (open_, held, w₁, same, run) = increase_amount-run env id amount w w' h in
      unguarded-Moved open_ same (
        deposit-Moved (guarded true w) w₁
          (deposit_for_internal-Deposited env id amount 0 _ _ (guarded true w) w₁ run) refl held)

  pub increase_unlock_time-Moved :
      (id lock_duration : ℕ)
      → increase_unlock_time env id lock_duration w ≡ done tt w'
      → Moved (pay id 0) w w'
  increase_unlock_time-Moved id lock_duration h =
      let (open_, held, w₁, same, run) = increase_unlock_time-run env id lock_duration w w' h in
      unguarded-Moved open_ same (
        deposit-Moved (guarded true w) w₁
          (deposit_for_internal-Deposited env id 0 _ _ _ (guarded true w) w₁ run) refl held)

module _ (env : Env) (w w' : World) where
  create_lock_internal-Moved :
      (value lock_duration id : ℕ) (to : Key)
      → create_lock_internal env value lock_duration to w ≡ done id w'
      → Moved (open_lock value) w w'
  unfolding vault_of move_vault
  create_lock_internal-Moved value lock_duration id to h =
      let (p, q, r, named) = create_lock_internal-tests env value lock_duration to id w w' h in
      let (ids, w₁, minted, same, before, entered, run) =
        create_lock_internal-deposit env value lock_duration to id w w' h in
      let l = get_locked_balance w.escrow id in
      let d =
        deposit_for_internal-Deposited env id value (unlock_time_of (now env) lock_duration) l
          create_lock_type w₁ w' run in
      let (new, o, added, owners, owned, counted) =
        mint-inversion env w.token w₁.token id to ids minted in
      record {
        allowed = p;
        vault =
            Vault-eq (λ j. ground (arith, d.locks j)) (ground (arith, d.supply))
              (ap (λ (t : Token). t.total_supply) d.token ∙ counted)
              (ground (arith, total_paid-deposit w₁ w' d refl));
        guard = d.guard ∙ ap (λ (e : Escrow). e.is_locked) same;
      }

module _ (env : Env) (w w' : World) where
  pub create_lock-Moved :
      (amount lock_duration : ℕ)
      → create_lock env amount lock_duration w ≡ done tt w'
      → Moved (open_lock amount) w w'
  create_lock-Moved amount lock_duration h =
      let (open_, caller, called, id, w₁, same, run) =
        create_lock-run env amount lock_duration w w' h in
      unguarded-Moved open_ same
        (create_lock_internal-Moved env (guarded true w) w₁ amount lock_duration id caller run)

  pub create_lock_for-Moved :
      (amount lock_duration : ℕ) (to : Key)
      → create_lock_for env amount lock_duration to w ≡ done tt w'
      → Moved (open_lock amount) w w'
  create_lock_for-Moved amount lock_duration to h =
      let (open_, id, w₁, same, run) = create_lock_for-run env amount lock_duration to w w' h in
      unguarded-Moved open_ same
        (create_lock_internal-Moved env (guarded true w) w₁ amount lock_duration id to run)
