-- ===== src/Contract/Deposits.antt =====
-- What a deposit that goes through has done (`_deposit_for` of ve/src/vedata.rs).
use casper_ve_cep.Prelude.{
  ℕ, ◌≡◌, ◌⊎◌, refl, true, false, ◌||◌, some, [], ◌∷◌, ◌++◌, ◌==◌, to_string, text_eq_refl,
  text_eq-to_string, if◌then◌else◌, arith, add_u128, Bool-cases, Option-cases, inl, inr,
}
use casper_ve_cep.Exec.{done}
use casper_ve_cep.Host.{
  Env, Key, immediate_caller, self_key, get_immediate_caller_key, get_self_key,
}
use casper_ve_cep.Escrow.State.{
  Escrow, LockedBalance, get_locked_balance, merge_type, current_block_number,
}
use casper_ve_cep.Escrow.CheckPoint.Frame.{
  locked-check_point, ve_supply-check_point, token_contract-check_point, is_locked-check_point,
  roles_of, roles-check_point,
}
use casper_ve_cep.Contract.World.{World, transfer_from}
use casper_ve_cep.Contract.Locks.{now, deposited, put_lock, deposit_escrow, deposit_for_internal}

module _ (env : Env) (token_id value unlock_time : ℕ) (l : LockedBalance) (e : Escrow) where
  locked-deposit_escrow :
      get_locked_balance (deposit_escrow env token_id value unlock_time l e) token_id
      ≡ deposited value unlock_time l
  unfolding deposit_escrow
  locked-deposit_escrow =
      rw
        (locked-check_point (now env) current_block_number token_id l
          (deposited value unlock_time l)
          (put_lock token_id (deposited value unlock_time l)
            (record e { ve_supply = add_u128 e.ve_supply value })))
        (ground (arith, text_eq_refl (to_string token_id)))

  locks-deposit_escrow :
      (id : ℕ)
      → get_locked_balance (deposit_escrow env token_id value unlock_time l e) id
        ≡ (if token_id == id then deposited value unlock_time l else get_locked_balance e id)
  unfolding deposit_escrow
  locks-deposit_escrow id =
      rw
        (locked-check_point (now env) current_block_number token_id l
          (deposited value unlock_time l)
          (put_lock token_id (deposited value unlock_time l)
            (record e { ve_supply = add_u128 e.ve_supply value })))
        (ground (arith, text_eq-to_string token_id id))

  ve_supply-deposit_escrow :
      (deposit_escrow env token_id value unlock_time l e).ve_supply ≡ add_u128 e.ve_supply value
  unfolding deposit_escrow
  ve_supply-deposit_escrow = ve_supply-check_point (now env) current_block_number token_id l _ _

  roles-deposit_escrow : roles_of (deposit_escrow env token_id value unlock_time l e) ≡ roles_of e
  unfolding deposit_escrow
  roles-deposit_escrow = roles-check_point (now env) current_block_number token_id l _ _

  is_locked-deposit_escrow :
      (deposit_escrow env token_id value unlock_time l e).is_locked ≡ e.is_locked
  unfolding deposit_escrow
  is_locked-deposit_escrow = is_locked-check_point (now env) current_block_number token_id l _ _

  pub token_contract-deposit_escrow :
      (deposit_escrow env token_id value unlock_time l e).token_contract ≡ e.token_contract
  unfolding deposit_escrow
  token_contract-deposit_escrow =
      token_contract-check_point (now env) current_block_number token_id l _ _

-- A deposit that went through: the lock has grown by the value, so has the supply, and exactly that
-- value has been drawn from the caller to the contract, unless it is zero or merged.
pub record Deposited (env : Env) (token_id value unlock_time : ℕ) (l : LockedBalance)
    (deposit_type : ℕ) (w w' : World) : Type 0 where
  pub lock : get_locked_balance w'.escrow token_id ≡ deposited value unlock_time l
  pub locks :
      (id : ℕ)
      → get_locked_balance w'.escrow id
        ≡ (if token_id == id then deposited value unlock_time l else get_locked_balance w.escrow id)
  pub supply : w'.escrow.ve_supply ≡ add_u128 w.escrow.ve_supply value
  pub guard : w'.escrow.is_locked ≡ w.escrow.is_locked
  pub token : w'.token ≡ w.token
  pub votes : w'.votes ≡ w.votes
  pub roles : roles_of w'.escrow ≡ roles_of w.escrow
  pub drawn :
      (((value == 0 || deposit_type == merge_type) ≡ true) × (w'.transfers ≡ w.transfers))
      ⊎ (((value == 0 || deposit_type == merge_type) ≡ false)
          × (from recipient : Key) × (immediate_caller env ≡ some from)
          × (self_key env ≡ some recipient)
          × (w'.transfers
              ≡ w.transfers
                ++ record {
                  contract = w.escrow.token_contract;
                  from = from;
                  recipient = recipient;
                  amount = value;
                  locked = w.escrow.is_locked;
                }
                  ∷ []))

module _ (env : Env) (token_id value unlock_time : ℕ) (l : LockedBalance) (deposit_type : ℕ)
    (w w' : World) where
  deposit_for_internal-kept :
      deposit_for_internal env token_id value unlock_time l deposit_type w ≡ done tt w'
      → (value == 0 || deposit_type == merge_type) ≡ true
      → w' ≡ record w { escrow = deposit_escrow env token_id value unlock_time l w.escrow }
  unfolding deposit_for_internal get_immediate_caller_key
  deposit_for_internal-kept h idle = ground arith

  deposit_for_internal-drawn :
      (from recipient : Key)
      → immediate_caller env ≡ some from
      → self_key env ≡ some recipient
      → deposit_for_internal env token_id value unlock_time l deposit_type w ≡ done tt w'
      → (value == 0 || deposit_type == merge_type) ≡ false
      → w' ≡ record w {
        escrow = deposit_escrow env token_id value unlock_time l w.escrow;
        transfers =
            w.transfers
            ++ record {
              contract = (deposit_escrow env token_id value unlock_time l w.escrow).token_contract;
              from = from;
              recipient = recipient;
              amount = value;
              locked = (deposit_escrow env token_id value unlock_time l w.escrow).is_locked;
            }
              ∷ [];
      }
  unfolding deposit_for_internal get_immediate_caller_key get_self_key transfer_from
  deposit_for_internal-drawn from recipient called self h due = ground arith

  deposit_for_internal-caller :
      deposit_for_internal env token_id value unlock_time l deposit_type w ≡ done tt w'
      → (from : Key) × (immediate_caller env ≡ some from)
  unfolding deposit_for_internal get_immediate_caller_key
  deposit_for_internal-caller h = elim (Option-cases (immediate_caller env)) [
    | inl missing ↦ absurd (ground arith)
    | inr found ↦ found
  ]

  deposit_for_internal_self :
      deposit_for_internal env token_id value unlock_time l deposit_type w ≡ done tt w'
      → (value == 0 || deposit_type == merge_type) ≡ false
      → (recipient : Key) × (self_key env ≡ some recipient)
  unfolding deposit_for_internal get_immediate_caller_key get_self_key
  deposit_for_internal_self h due = elim (Option-cases (self_key env)) [
    | inl missing ↦ absurd (ground arith)
    | inr found ↦ found
  ]

  -- Every deposit that goes through writes the grown lock and changes no other, adds the value to the
  -- supply, leaves the guard, the token, the votes and what is the team's and the voter's alone, and
  -- draws exactly the value from the caller to the contract, once, unless the value is zero or comes
  -- from a merge, when it draws nothing.
  pub deposit_for_internal-Deposited :
      deposit_for_internal env token_id value unlock_time l deposit_type w ≡ done tt w'
      → Deposited env token_id value unlock_time l deposit_type w w'
  deposit_for_internal-Deposited h = elim (Bool-cases (value == 0 || deposit_type == merge_type)) [
    | inl idle ↦ rw (deposit_for_internal-kept h idle) (record {
      lock = locked-deposit_escrow env token_id value unlock_time l w.escrow;
      locks = locks-deposit_escrow env token_id value unlock_time l w.escrow;
      supply = ve_supply-deposit_escrow env token_id value unlock_time l w.escrow;
      guard = is_locked-deposit_escrow env token_id value unlock_time l w.escrow;
      token = refl;
      votes = refl;
      roles = roles-deposit_escrow env token_id value unlock_time l w.escrow;
      drawn = inl (idle, refl);
    })
    | inr due ↦
        let (from, called) = deposit_for_internal-caller h in
        let (recipient, self) = deposit_for_internal_self h due in
        let frame = token_contract-deposit_escrow env token_id value unlock_time l w.escrow in
        let guard = is_locked-deposit_escrow env token_id value unlock_time l w.escrow in
        rw (deposit_for_internal-drawn from recipient called self h due) (record {
          lock = locked-deposit_escrow env token_id value unlock_time l w.escrow;
          locks = locks-deposit_escrow env token_id value unlock_time l w.escrow;
          supply = ve_supply-deposit_escrow env token_id value unlock_time l w.escrow;
          guard = is_locked-deposit_escrow env token_id value unlock_time l w.escrow;
          token = refl;
          votes = refl;
          roles = roles-deposit_escrow env token_id value unlock_time l w.escrow;
          drawn = inr (due, from, recipient, called, self, rw (frame, guard) refl);
        })
  ]
