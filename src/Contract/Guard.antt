-- ===== src/Contract/Guard.antt =====
-- The lock of ve/src/lock.rs around the entry points that move tokens.
use casper_ve_cep.Prelude.{ℕ, ◌≡◌, ◌≢◌, true, inl, inr, arith}
use casper_ve_cep.Errors.{ve_code}
use casper_ve_cep.Exec.{done, reverted, user, Outcome-cases, narrow}
use casper_ve_cep.Host.{Env, Key, get_immediate_caller_key}
use casper_ve_cep.Token.Cep47.{is_approved_or_owner}
use casper_ve_cep.Contract.World.{World, when_not_locked}
use casper_ve_cep.Contract.Locks.{
  create_lock, create_lock_for, increase_amount, increase_unlock_time, require_approved_or_owner,
}

module _ (env : Env) where
  -- The check of the caller leaves the storage alone.
  pub require_approved_or_owner-frame :
      (token_id : ℕ) (w w' : World) → require_approved_or_owner env token_id w ≡ done tt w' → w' ≡ w
  unfolding require_approved_or_owner get_immediate_caller_key is_approved_or_owner
  require_approved_or_owner-frame token_id w w' h = ground arith

  module _ (w : World) (locked : w.escrow.is_locked ≡ true) where
    create_lock-locked :
        (amount lock_duration : ℕ) → create_lock env amount lock_duration w ≡ reverted (user 148)
    unfolding create_lock when_not_locked ve_code
    create_lock-locked amount lock_duration = ground arith

    create_lock_for-locked :
        (amount lock_duration : ℕ) (to : Key)
        → create_lock_for env amount lock_duration to w ≡ reverted (user 148)
    unfolding create_lock_for when_not_locked ve_code
    create_lock_for-locked amount lock_duration to = ground arith

    increase_amount-locked :
        (token_id amount : ℕ) (w' : World) → increase_amount env token_id amount w ≢ done tt w'
    unfolding increase_amount when_not_locked narrow
    increase_amount-locked token_id amount w' h =
        elim (Outcome-cases (require_approved_or_owner env token_id w)) [
          | inr (inl (e, t, bad)) ↦ ground arith
          | inr (inr (f, bad)) ↦ ground arith
          | inl (done_, w₁, passed) ↦
              let same = require_approved_or_owner-frame token_id w w₁ passed in ground arith
        ]

    increase_unlock_time-locked :
        (token_id lock_duration : ℕ) (w' : World)
        → increase_unlock_time env token_id lock_duration w ≢ done tt w'
    unfolding increase_unlock_time when_not_locked
    increase_unlock_time-locked token_id lock_duration w' h =
        elim (Outcome-cases (require_approved_or_owner env token_id w)) [
          | inr (inl (e, t, bad)) ↦ ground arith
          | inr (inr (f, bad)) ↦ ground arith
          | inl (done_, w₁, passed) ↦
              let same = require_approved_or_owner-frame token_id w w₁ passed in ground arith
        ]

    -- While the contract is locked no guarded entry point goes through: `create_lock` and
    -- `create_lock_for` are stopped with the code of `ContractLocked`, and `increase_amount` and
    -- `increase_unlock_time` do not return.
    pub guarded_when_locked :
        (amount lock_duration token_id : ℕ) (to : Key)
        → (create_lock env amount lock_duration w ≡ reverted (user 148))
          × (create_lock_for env amount lock_duration to w ≡ reverted (user 148))
          × ((w' : World) → increase_amount env token_id amount w ≢ done tt w')
          × ((w' : World) → increase_unlock_time env token_id lock_duration w ≢ done tt w')
    guarded_when_locked amount lock_duration token_id to = (
      create_lock-locked amount lock_duration,
      create_lock_for-locked amount lock_duration to,
      increase_amount-locked token_id amount,
      increase_unlock_time-locked token_id lock_duration,
    )
