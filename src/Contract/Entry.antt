-- ===== src/Contract/Entry.antt =====
-- The entry point `create_lock` of ve/src/vedata.rs as its callers see it.
use casper_ve_cep.Prelude.{
  ℕ, ◌≡◌, refl, Bool, true, false, some, [], ◌∷◌, ◌++◌, inl, inr, arith, Option-cases, Bool-cases,
}
use casper_ve_cep.Exec.{done, Outcome-cases}
use casper_ve_cep.Host.{Env, Key, immediate_caller, self_key, get_immediate_caller_key}
use casper_ve_cep.Contract.World.{World, when_not_locked, lock_contract, unlock_contract}
use casper_ve_cep.Contract.Locks.{create_lock, create_lock_for, create_lock_internal}
use casper_ve_cep.Contract.Create.{Created, create_lock_internal-Created}

-- The storage with the guard of ve/src/lock.rs set to a value.
abbrev pub guarded : Bool → World → World
guarded b w = record w { escrow = record w.escrow { is_locked = b } }

-- `create_lock` locks the contract, runs `_create_lock` for the caller and unlocks it.
pub create_lock-run :
    (env : Env) (amount lock_duration : ℕ) (w w' : World)
    → create_lock env amount lock_duration w ≡ done tt w'
    → (w.escrow.is_locked ≡ false)
      × (caller : Key) × (immediate_caller env ≡ some caller)
      × (id : ℕ) × (w₁ : World) × (w' ≡ guarded false w₁)
      × (create_lock_internal env amount lock_duration caller (guarded true w) ≡ done id w₁)
unfolding create_lock when_not_locked lock_contract unlock_contract get_immediate_caller_key
create_lock-run env amount lock_duration w w' h = elim (Bool-cases w.escrow.is_locked) [
  | inl locked ↦ absurd (ground arith)
  | inr open_ ↦ elim (Option-cases (immediate_caller env)) [
    | inl missing ↦ absurd (ground arith)
    | inr (caller, called) ↦
        elim (Outcome-cases
          (create_lock_internal env amount lock_duration caller (guarded true w))) [
            | inr (inl (e, t, bad)) ↦ absurd (ground arith)
            | inr (inr (f, bad)) ↦ absurd (ground arith)
            | inl (id, w₁, run) ↦ (open_, caller, called, id, w₁, ground arith, run)
          ]
  ]
]

-- `create_lock_for` does so for the key that it is given.
pub create_lock_for-run :
    (env : Env) (amount lock_duration : ℕ) (to : Key) (w w' : World)
    → create_lock_for env amount lock_duration to w ≡ done tt w'
    → (w.escrow.is_locked ≡ false)
      × (id : ℕ) × (w₁ : World) × (w' ≡ guarded false w₁)
      × (create_lock_internal env amount lock_duration to (guarded true w) ≡ done id w₁)
unfolding create_lock_for when_not_locked lock_contract unlock_contract
create_lock_for-run env amount lock_duration to w w' h = elim (Bool-cases w.escrow.is_locked) [
  | inl locked ↦ absurd (ground arith)
  | inr open_ ↦
      elim (Outcome-cases (create_lock_internal env amount lock_duration to (guarded true w))) [
        | inr (inl (e, t, bad)) ↦ absurd (ground arith)
        | inr (inr (f, bad)) ↦ absurd (ground arith)
        | inl (id, w₁, run) ↦ (open_, id, w₁, ground arith, run)
      ]
]

-- When `create_lock` returns: the contract was not locked before and is not locked after; a lock has
-- been opened for the caller as `_create_lock` does it; and the one call to the ERC-20 token, which
-- draws exactly the amount from the caller to the contract, was made while the contract was locked.
pub create_lock-Created :
    (env : Env) (amount lock_duration : ℕ) (w w' : World)
    → create_lock env amount lock_duration w ≡ done tt w'
    → (w.escrow.is_locked ≡ false)
      × (w'.escrow.is_locked ≡ false)
      × (caller : Key) × (immediate_caller env ≡ some caller)
      × (id : ℕ) × (w₁ : World) × (w' ≡ guarded false w₁)
      × Created env amount lock_duration caller id (guarded true w) w₁
      × (recipient : Key) × (self_key env ≡ some recipient)
      × (w'.transfers
          ≡ w.transfers
            ++ record {
              contract = w.escrow.token_contract;
              from = caller;
              recipient = recipient;
              amount = amount;
              locked = true;
            }
              ∷ [])
create_lock-Created env amount lock_duration w w' h =
    let (open_, caller, called, id, w₁, same, run) =
      create_lock-run env amount lock_duration w w' h in
    let created =
      create_lock_internal-Created env amount lock_duration caller id (guarded true w) w₁ run in
    let (from, recipient, called', self, drawn) = created.drawn in
    let payer : from ≡ caller = cc in
    (
      open_,
      rw same refl,
      caller,
      called,
      id,
      w₁,
      same,
      created,
      recipient,
      self,
      rw same (rw (← payer) drawn),
    )
