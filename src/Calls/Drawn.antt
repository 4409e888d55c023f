-- ===== src/Calls/Drawn.antt =====
-- From whom a call of the contract draws a payment (ve/src/vedata.rs), and whether the guard of
-- ve/src/lock.rs is set meanwhile.
use casper_ve_cep.Prelude.{ℕ, ◌≡◌, Bool, true, false, some, [], ◌∷◌, ◌++◌, ◌⊎◌}
use casper_ve_cep.Host.{Env, Key, immediate_caller, self_key}
use casper_ve_cep.Contract.World.{World}
use casper_ve_cep.Contract.Locks.{
  increase_unlock_time, increase_amount, create_lock_for, create_lock,
}
use casper_ve_cep.Calls.Signatures.{EscrowCall, Call}

-- Nothing is drawn, or one payment from the caller to the contract by its ERC-20 token, with the
-- guard as given.
abbrev pub IsDrawn : Env → Bool → World → World → Type 0
IsDrawn env guard w w' =
    (w'.transfers ≡ w.transfers)
    ⊎ ((from recipient : Key) × (amount : ℕ) × (immediate_caller env ≡ some from)
        × (self_key env ≡ some recipient)
        × (w'.transfers
            ≡ w.transfers
              ++ record {
                contract = w.escrow.token_contract;
                from = from;
                recipient = recipient;
                amount = amount;
                locked = guard;
              }
                ∷ []))

-- The calls that set the guard.
abbrev pub is_guarded : Call → Bool
is_guarded (Call.escrow (EscrowCall.create_lock amount lock_duration)) = true
is_guarded (Call.escrow (EscrowCall.create_lock_for amount lock_duration to)) = true
is_guarded (Call.escrow (EscrowCall.increase_amount id amount)) = true
is_guarded (Call.escrow (EscrowCall.increase_unlock_time id lock_duration)) = true
is_guarded _ = false
