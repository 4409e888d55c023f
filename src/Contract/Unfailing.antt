-- ===== src/Contract/Unfailing.antt =====
-- The actions of ve/src/vedata.rs that change locks never end with an `Err`.
use casper_ve_cep.Prelude.{ℕ, ◌≢◌, true, arith, inl, inr, Option-cases}
use casper_ve_cep.Errors.{Error}
use casper_ve_cep.Exec.{failed, narrow, Outcome-cases}
use casper_ve_cep.Host.{
  Env, Key, key_to_str, immediate_caller, get_immediate_caller_key, get_self_key,
}
use casper_ve_cep.Token.Cep47.{is_approved_or_owner}
use casper_ve_cep.Votes.State.{
  delegates_of, get_delegate, get_num_checkpoints, set_num_checkpoints,
  find_what_checkpoint_to_write,
}
use casper_ve_cep.Votes.Delegation.{rewrite_without, move_token_delegates}
use casper_ve_cep.Contract.Entry.{guarded}
use casper_ve_cep.Contract.Merge.{emptied}
use casper_ve_cep.Contract.World.{
  World, transfer_from, when_not_locked, lock_contract, unlock_contract,
}
use casper_ve_cep.Contract.Locks.{
  deposit_for_internal, require_approved_or_owner, create_lock_internal, deposit_for,
  increase_amount_for, increase_amount, increase_unlock_time, create_lock, create_lock_for,
  burn_nft, merge,
}

module _ (env : Env) (w w' : World) (e : Error) where
  pub deposit_for-unfailing : (id amount : ℕ) → deposit_for env id amount w ≢ failed e w'
  unfolding deposit_for narrow deposit_for_internal get_immediate_caller_key get_self_key
      transfer_from
  deposit_for-unfailing id amount h = ground arith

  pub increase_amount_for-unfailing :
      (id amount : ℕ) → increase_amount_for env id amount w ≢ failed e w'
  unfolding increase_amount_for narrow deposit_for_internal get_immediate_caller_key get_self_key
      transfer_from
  increase_amount_for-unfailing id amount h = ground arith

  pub increase_amount-unfailing : (id amount : ℕ) → increase_amount env id amount w ≢ failed e w'
  unfolding increase_amount narrow deposit_for_internal get_immediate_caller_key get_self_key
      transfer_from when_not_locked lock_contract unlock_contract require_approved_or_owner
      is_approved_or_owner
  increase_amount-unfailing id amount h = ground arith

  pub increase_unlock_time-unfailing :
      (id amount : ℕ) → increase_unlock_time env id amount w ≢ failed e w'
  unfolding increase_unlock_time deposit_for_internal get_immediate_caller_key get_self_key
      transfer_from when_not_locked lock_contract unlock_contract require_approved_or_owner
      is_approved_or_owner
  increase_unlock_time-unfailing id amount h = ground arith

  create_lock_internal-unfailing :
      (value lock_duration : ℕ) (to : Key)
      → create_lock_internal env value lock_duration to w ≢ failed e w'
  unfolding create_lock_internal narrow deposit_for_internal get_immediate_caller_key get_self_key
      transfer_from delegates_of get_delegate move_token_delegates rewrite_without
      get_num_checkpoints key_to_str set_num_checkpoints find_what_checkpoint_to_write
  create_lock_internal-unfailing value lock_duration to h = ground arith

  burn_nft-unfailing : (id : ℕ) → burn_nft env id w ≢ failed e w'
  unfolding burn_nft require_approved_or_owner is_approved_or_owner get_immediate_caller_key
      delegates_of get_delegate move_token_delegates rewrite_without get_num_checkpoints key_to_str
      set_num_checkpoints find_what_checkpoint_to_write
  burn_nft-unfailing id h = ground arith

module _ (env : Env) (w w' : World) (e : Error) where
  pub create_lock-unfailing :
      (value lock_duration : ℕ) → create_lock env value lock_duration w ≢ failed e w'
  unfolding create_lock get_immediate_caller_key when_not_locked lock_contract unlock_contract
  create_lock-unfailing value lock_duration h = elim (Option-cases (immediate_caller env)) [
    | inl missing ↦ ground arith
    | inr (caller, called) ↦
        elim (Outcome-cases
          (create_lock_internal env value lock_duration caller (guarded true w))) [
            | inl (id, w₁, run) ↦ ground arith
            | inr (inl (x, w₁, bad)) ↦
                create_lock_internal-unfailing env (guarded true w) w₁ x value lock_duration caller
                  bad
            | inr (inr (r, run)) ↦ ground arith
          ]
  ]

  pub create_lock_for-unfailing :
      (value lock_duration : ℕ) (to : Key)
      → create_lock_for env value lock_duration to w ≢ failed e w'
  unfolding create_lock_for when_not_locked lock_contract unlock_contract
  create_lock_for-unfailing value lock_duration to h =
      elim (Outcome-cases (create_lock_internal env value lock_duration to (guarded true w))) [
        | inl (id, w₁, run) ↦ ground arith
        | inr (inl (x, w₁, bad)) ↦
            create_lock_internal-unfailing env (guarded true w) w₁ x value lock_duration to bad
        | inr (inr (r, run)) ↦ ground arith
      ]

  pub merge-unfailing : (from to : ℕ) → merge env from to w ≢ failed e w'
  unfolding merge narrow require_approved_or_owner is_approved_or_owner deposit_for_internal
      get_immediate_caller_key get_self_key transfer_from
  merge-unfailing from to h =
      elim (Outcome-cases (burn_nft env from (record w { escrow = emptied env from w.escrow }))) [
        | inl (x, w₁, run) ↦ ground arith
        | inr (inl (x, w₁, bad)) ↦
            burn_nft-unfailing env (record w { escrow = emptied env from w.escrow }) w₁ x from bad
        | inr (inr (r, run)) ↦ ground arith
      ]
