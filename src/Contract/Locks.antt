-- ===== src/Contract/Locks.antt =====
-- The entry points that create, extend and merge locks (ve/src/vedata.rs, section ESCROW). A `U256`
-- argument is narrowed to `u64` as the source does it, and arguments arrive decoded.
use casper_ve_cep.Prelude.{
  ℕ, ◌*◌, ◌/◌, not, ◌||◌, [], ◌∷◌, ltb, leb, ◌==◌, if◌then◌else◌, add_u64, add_u128, to_string,
}
use casper_ve_cep.Errors.{
  invalid_amount, no_existing_lock, cannot_add_to_expired_lock, can_only_lock_till_time_in_future,
  voting_lock_max_26_weeks, not_owner_or_approved, can_only_increase_lock, from_must_not_to,
  not_team,
}
use casper_ve_cep.Exec.{
  Exec, ◌>>=◌, ◌>>◌, modify, gets, pure, require, unwrap, unless, narrow, result_or_revert,
}
use casper_ve_cep.Host.{
  Env, Key, key_eq, set, null_key, get_immediate_caller_key, get_self_key,
  current_block_timestamp_seconds,
}
use casper_ve_cep.Token.Cep47.{mint, burn, is_approved_or_owner, owner_of}
use casper_ve_cep.Escrow.State.{
  Escrow, LockedBalance, default_lock, get_locked_balance, week, max_time, current_block_number,
  deposit_for_type, create_lock_type, increase_lock_amount, increase_unlock_time_type, merge_type,
}
use casper_ve_cep.Escrow.CheckPoint.{check_point_internal}
use casper_ve_cep.Votes.State.{delegates_of}
use casper_ve_cep.Votes.Delegation.{move_token_delegates}
use casper_ve_cep.Contract.World.{
  World, on_token, on_escrow, on_votes, transfer_from, when_not_locked, lock_contract,
  unlock_contract,
}

-- The lock that `_deposit_for` writes.
abbrev pub deposited : ℕ → ℕ → LockedBalance → LockedBalance
deposited value unlock_time l = record {
  amount = add_u128 l.amount value;
  end = if unlock_time == 0 then l.end else unlock_time;
}

-- The unlock time that `_create_lock` and `increase_unlock_time` compute.
abbrev pub unlock_time_of : ℕ → ℕ → ℕ
unlock_time_of now lock_duration = add_u64 now lock_duration / week * week

abbrev pub put_lock : ℕ → LockedBalance → Escrow → Escrow
put_lock token_id l e = record e { locked = set e.locked (to_string token_id) l }

module _ (env : Env) where
  abbrev pub now : ℕ
  now = current_block_timestamp_seconds env

  -- The writes of `_deposit_for` to the escrow.
  unfoldable pub deposit_escrow : ℕ → ℕ → ℕ → LockedBalance → Escrow → Escrow
  deposit_escrow token_id value unlock_time l e =
      check_point_internal now current_block_number token_id l (deposited value unlock_time l) (
        put_lock token_id (deposited value unlock_time l)
          (record e { ve_supply = add_u128 e.ve_supply value }))

  -- `_deposit_for`
  unfoldable pub deposit_for_internal : ℕ → ℕ → ℕ → LockedBalance → ℕ → Exec World (Unit {0})
  deposit_for_internal token_id value unlock_time l deposit_type = do
    on_escrow (modify (deposit_escrow token_id value unlock_time l))
    from ← get_immediate_caller_key env
    token ← gets (λ w. w.escrow.token_contract)
    unless (value == 0 || deposit_type == merge_type)
        (do recipient ← get_self_key env; transfer_from env token from recipient value)

  -- The entry point `check_point`.
  unfoldable pub check_point : Exec World (Unit {0})
  check_point =
      on_escrow (modify (check_point_internal now current_block_number 0 default_lock default_lock))

  -- What `deposit_for`, `increase_amount` and `increase_amount_for` require of the lock.
  abbrev pub require_open_lock : ℕ → LockedBalance → Exec World (Unit {0})
  require_open_lock amount l = do
    require (ltb 0 amount) invalid_amount
    require (ltb 0 l.amount) no_existing_lock
    require (ltb now l.end) cannot_add_to_expired_lock

  unfoldable pub deposit_for : ℕ → ℕ → Exec World (Unit {0})
  deposit_for token_id_arg amount = do
    token_id ← narrow 64 token_id_arg
    l ← gets (λ w. get_locked_balance w.escrow token_id)
    require_open_lock amount l
    deposit_for_internal token_id amount 0 l deposit_for_type

  -- `_create_lock`
  unfoldable pub create_lock_internal : ℕ → ℕ → Key → Exec World ℕ
  create_lock_internal value lock_duration to = do
    let unlock_time = unlock_time_of now lock_duration
    require (ltb 0 value) invalid_amount
    require (ltb now unlock_time) can_only_lock_till_time_in_future
    require (leb unlock_time (add_u64 now max_time)) voting_lock_max_26_weeks
    minted ← gets (λ w. w.token.total_supply)
    minted_tokens_count ← narrow 64 minted
    let token_id = add_u64 minted_tokens_count 1
    ids ← on_token (result_or_revert (mint env to (token_id ∷ []) ([] ∷ [])))
    dst ← on_votes (delegates_of env to)
    on_votes (move_token_delegates env null_key dst token_id)
    l ← gets (λ w. get_locked_balance w.escrow token_id)
    deposit_for_internal token_id value unlock_time l create_lock_type
    pure token_id

  unfoldable pub create_lock : ℕ → ℕ → Exec World (Unit {0})
  create_lock amount lock_duration = do
    when_not_locked
    lock_contract
    caller ← get_immediate_caller_key env
    token_id ← create_lock_internal amount lock_duration caller
    unlock_contract

  unfoldable pub create_lock_for : ℕ → ℕ → Key → Exec World (Unit {0})
  create_lock_for amount lock_duration to = do
    when_not_locked
    lock_contract
    token_id ← create_lock_internal amount lock_duration to
    unlock_contract

  -- `require(is_approved_or_owner(token_id, caller), NotOwnerOrApproved)`
  unfoldable pub require_approved_or_owner : ℕ → Exec World (Unit {0})
  require_approved_or_owner token_id = do
    caller ← get_immediate_caller_key env
    allowed ← on_token (is_approved_or_owner env token_id caller)
    require allowed not_owner_or_approved

  unfoldable pub increase_amount : ℕ → ℕ → Exec World (Unit {0})
  increase_amount token_id_arg amount = do
    token_id ← narrow 64 token_id_arg
    require_approved_or_owner token_id
    when_not_locked
    lock_contract
    l ← gets (λ w. get_locked_balance w.escrow token_id)
    require_open_lock amount l
    deposit_for_internal token_id amount 0 l increase_lock_amount
    unlock_contract

  unfoldable pub increase_unlock_time : ℕ → ℕ → Exec World (Unit {0})
  increase_unlock_time token_id lock_duration = do
    require_approved_or_owner token_id
    when_not_locked
    lock_contract
    l ← gets (λ w. get_locked_balance w.escrow token_id)
    let unlock_time = unlock_time_of now lock_duration
    require (ltb now l.end) cannot_add_to_expired_lock
    require (ltb 0 l.amount) no_existing_lock
    require (ltb l.end unlock_time) can_only_increase_lock
    require (leb unlock_time (add_u64 now max_time)) voting_lock_max_26_weeks
    deposit_for_internal token_id 0 unlock_time l increase_unlock_time_type
    unlock_contract

  unfoldable pub increase_amount_for : ℕ → ℕ → Exec World (Unit {0})
  increase_amount_for token_id_arg amount = do
    token_id ← narrow 64 token_id_arg
    caller ← get_immediate_caller_key env
    team ← gets (λ w. w.escrow.team)
    require (key_eq caller team) not_team
    l ← gets (λ w. get_locked_balance w.escrow token_id)
    require_open_lock amount l
    deposit_for_internal token_id amount 0 l increase_lock_amount

  -- `_burn_nft`
  unfoldable pub burn_nft : ℕ → Exec World (Unit {0})
  burn_nft token_id = do
    require_approved_or_owner token_id
    found ← gets (λ w. owner_of env w.token token_id)
    owner ← unwrap found
    on_token (result_or_revert (burn env owner (token_id ∷ [])))
    on_votes (move_token_delegates env owner null_key token_id)
    delegate ← on_votes (delegates_of env owner)
    on_votes (move_token_delegates env delegate null_key token_id)

  unfoldable pub merge : ℕ → ℕ → Exec World (Unit {0})
  merge from_arg to_arg = do
    from ← narrow 64 from_arg
    to ← narrow 64 to_arg
    require (not (from == to)) from_must_not_to
    require_approved_or_owner from
    require_approved_or_owner to
    locked0 ← gets (λ w. get_locked_balance w.escrow from)
    locked1 ← gets (λ w. get_locked_balance w.escrow to)
    let end = if leb locked1.end locked0.end then locked0.end else locked1.end
    on_escrow (
        modify (λ e.
          check_point_internal now current_block_number from locked0 default_lock
            (put_lock from default_lock e)))
    burn_nft from
    deposit_for_internal to locked0.amount end locked1 merge_type
