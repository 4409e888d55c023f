-- ===== src/Contract/Accepted.antt =====
-- When `create_lock` of ve/src/vedata.rs goes through.
use casper_ve_cep.Prelude.{
  ℕ, ◌+◌, ◌^◌, ◌≤◌, ◌<◌, ◌≡◌, refl, ◌∙◌, true, false, none, some, [], ◌∷◌, arith, add_u64, ◌==◌,
  ◌++◌, Bool-cases, inl, inr, Text,
}
use casper_ve_cep.Exec.{done, narrow}
use casper_ve_cep.Host.{
  Env, Key, hash, null_key, get, key_label, immediate_caller, self_key, stored_contract,
  get_immediate_caller_key, get_self_key, get_last_call_stack_item,
}
use casper_ve_cep.Host.Addresses.{NoCollision}
use casper_ve_cep.Token.State.{TokenId, owners_get}
use casper_ve_cep.Token.OwnedTokens.Effects.{balance}
use casper_ve_cep.Token.Cep47.Mint.{mint-Reassigned}
use casper_ve_cep.Token.WellFormed.{IsWellFormed}
use casper_ve_cep.Escrow.State.{LockedBalance, get_locked_balance, max_time, create_lock_type}
use casper_ve_cep.Votes.Null.{IsTagged, undelegated_lock}
use casper_ve_cep.Contract.World.{
  World, transfer_from, when_not_locked, lock_contract, unlock_contract,
}
use casper_ve_cep.Contract.Locks.{
  now, unlock_time_of, deposit_escrow, deposit_for_internal, create_lock_internal, create_lock,
}
use casper_ve_cep.Contract.Deposits.{token_contract-deposit_escrow}
use casper_ve_cep.Contract.Entry.{guarded}

-- What the host and the ERC-20 token must grant for a payment by the caller.
pub record IsPayable (env : Env) (caller : Key) (contract value : ℕ) : Type 0 where
  pub called : immediate_caller env ≡ some caller
  pub me : Key
  pub self : self_key env ≡ some me
  pub accepted : env.transfer_accepted (hash contract) caller me value ≡ true
  pub package_hash : ℕ
  pub code : ℕ
  pub stack : get_last_call_stack_item env ≡ some (stored_contract package_hash code)

module _ (env : Env) (caller : Key) (contract value : ℕ)
    (p : IsPayable env caller contract value) where
  deposit_for_internal-accepted :
      (id unlock_time : ℕ) (l : LockedBalance) (w : World)
      → w.escrow.token_contract ≡ hash contract
      → (w' : World) × (deposit_for_internal env id value unlock_time l create_lock_type w
          ≡ done tt w')
  unfolding deposit_for_internal get_immediate_caller_key get_self_key transfer_from
  deposit_for_internal-accepted id unlock_time l w named =
      let kept = token_contract-deposit_escrow env id value unlock_time l w.escrow ∙ named in
      let after = record w { escrow = deposit_escrow env id value unlock_time l w.escrow } in
      elim (Bool-cases (value == 0)) [
        | inl nothing ↦ (after, ground (arith, p.called))
        | inr something ↦ (
          record after {
            transfers =
                w.transfers
                ++ record {
                  contract = after.escrow.token_contract;
                  from = caller;
                  recipient = p.me;
                  amount = value;
                  locked = after.escrow.is_locked;
                }
                  ∷ [];
          },
          ground (arith, p.called, p.self, p.accepted),
        )
      ]

-- A storage in which no token is numbered above the total supply.
abbrev pub IsNumbered : Env → World → Type 0
IsNumbered env w = (id : TokenId) → w.token.total_supply < id → owners_get env w.token id ≡ none

-- The storage has room for one more token of `caller`, who has never delegated, and the ERC-20
-- token is a contract.
pub record IsReady (env : Env) (caller : Key) (contract : ℕ) (w : World) : Type 0 where
  pub label : Text
  pub named : key_label env caller ≡ some label
  pub undelegated : get w.votes.delegates label ≡ none
  pub contract_set : w.escrow.token_contract ≡ hash contract
  pub room : balance env w.token.owned caller + 1 < 2 ^ 256
  pub small : w.token.total_supply + 1 < 2 ^ 64

module _ {env : Env} {InUse : Key → Type 0} (free : NoCollision env InUse)
    (tagged : IsTagged env null_key) (caller : Key) (q : InUse caller)
    (contract value lock_duration : ℕ) (p : IsPayable env caller contract value) (w : World)
    (valid : IsWellFormed env InUse w.token) (numbered : IsNumbered env w)
    (ready : IsReady env caller contract w) where
  create_lock_internal-accepted :
      0 < value
      → now env < unlock_time_of (now env) lock_duration
      → unlock_time_of (now env) lock_duration ≤ add_u64 (now env) max_time
      → (w' : World) × (create_lock_internal env value lock_duration caller w
          ≡ done (add_u64 w.token.total_supply 1) w')
  unfolding create_lock_internal narrow
  create_lock_internal-accepted paid later bounded =
      let id = add_u64 w.token.total_supply 1 in
      let new : owners_get env w.token id ≡ none = numbered id (omega (arith, ready.small)) in
      let (t, minted, given, total, counted, events) =
        mint-Reassigned free caller q (id ∷ []) ([] ∷ []) w.token valid refl (new, tt) (refl, tt)
          ready.room (omega (arith, ready.small)) p.stack in
      let (found, moved) =
        undelegated_lock env caller ready.label w.votes id tagged ready.named ready.undelegated in
      let (w', deposited_) =
        deposit_for_internal-accepted env caller contract value p id
          (unlock_time_of (now env) lock_duration) (get_locked_balance w.escrow id)
          (record w { token = t }) ready.contract_set in
      (w', ground (arith, minted, found, moved, deposited_))

module _ {env : Env} {InUse : Key → Type 0} (free : NoCollision env InUse)
    (tagged : IsTagged env null_key) (caller : Key) (q : InUse caller)
    (contract value lock_duration : ℕ) (p : IsPayable env caller contract value) (w : World)
    (valid : IsWellFormed env InUse w.token) (numbered : IsNumbered env w)
    (ready : IsReady env caller contract w) where
  -- In a well-formed storage in which no token is numbered above the total supply and the guard is
  -- open, `create_lock` goes through for a caller in use who has never delegated, with a positive
  -- amount and a duration within the bounds, if the payment is accepted, the counters have room, the
  -- ERC-20 token is a contract, and the null address has a tagged encoding.
  pub create_lock-accepted :
      w.escrow.is_locked ≡ false
      → 0 < value
      → now env < unlock_time_of (now env) lock_duration
      → unlock_time_of (now env) lock_duration ≤ add_u64 (now env) max_time
      → (w' : World) × (create_lock env value lock_duration w ≡ done tt w')
  unfolding create_lock get_immediate_caller_key when_not_locked lock_contract unlock_contract
  create_lock-accepted open_ paid later bounded =
      let ready' : IsReady env caller contract (guarded true w) = record {
        label = ready.label;
        named = ready.named;
        undelegated = ready.undelegated;
        contract_set = ready.contract_set;
        room = ready.room;
        small = ready.small;
      } in
      let (w₁, run) =
        create_lock_internal-accepted free tagged caller q contract value lock_duration p
          (guarded true w) valid numbered ready' paid later bounded in
      (guarded false w₁, ground (arith, run, p.called))
