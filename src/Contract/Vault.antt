-- ===== src/Contract/Vault.antt =====
-- The vault that ve/src/vedata.rs keeps, without time: what each token has locked, the supply, the
-- number of tokens and what has been paid in, and the calls as moves of it.
use casper_ve_cep.Prelude.{
  ℕ, ◌+◌, ◌-◌, ◌≢◌, Bool, true, ◌<◌, ◌≡◌, ap, List, [], ◌∷◌, ◌++◌, ◌==◌, if◌then◌else◌, arith,
  add_u64, add_u128, false, inl, inr,
}
use casper_ve_cep.Token.State.{Token}
use casper_ve_cep.Host.{Env}
use casper_ve_cep.Escrow.State.{LockedBalance, get_locked_balance, merge_type}
use casper_ve_cep.Contract.World.{World, TokenTransfer}
use casper_ve_cep.Contract.Deposits.{Deposited}

pub record Vault : Type 0 where
  pub locks : ℕ → ℕ
  pub supply : ℕ
  pub count : ℕ
  pub paid : ℕ

-- The sum of the payments.
unfoldable pub total_paid : List TokenTransfer → ℕ
total_paid [] = 0
total_paid (t ∷ ts) = t.amount + total_paid ts

unfoldable pub vault_of : World → Vault
vault_of w = record {
  locks = λ id. (get_locked_balance w.escrow id).amount;
  supply = w.escrow.ve_supply;
  count = w.token.total_supply;
  paid = total_paid w.transfers;
}

-- Nothing, a payment into a lock that is not empty, the opening of the next lock, and the joining of
-- a lock to another.
pub data Move : Type 0 where
  rest : Move
  pay : ℕ → ℕ → Move
  open_lock : ℕ → Move
  join_locks : ℕ → ℕ → Move

abbrev pub grown : ℕ → ℕ → (ℕ → ℕ) → ℕ → ℕ
grown id value locks j = if id == j then add_u128 (locks j) value else locks j

unfoldable pub move_vault : Move → Vault → Vault
move_vault rest v = v
move_vault (pay id value) v = record {
  locks = grown id value v.locks;
  supply = add_u128 v.supply value;
  count = v.count;
  paid = v.paid + value;
}
move_vault (open_lock value) v = record {
  locks = grown (add_u64 v.count 1) value v.locks;
  supply = add_u128 v.supply value;
  count = v.count + 1;
  paid = v.paid + value;
}
move_vault (join_locks from to) v = record {
  locks = λ j.
      if to == j then add_u128 (v.locks to) (v.locks from) else if from == j then 0 else v.locks j;
  supply = add_u128 v.supply (v.locks from);
  count = v.count - 1;
  paid = v.paid;
}

abbrev pub is_join : Move → Bool
is_join (join_locks from to) = true
is_join _ = false

abbrev pub IsAllowed : Move → Vault → Type 0
IsAllowed rest v = Unit {0}
IsAllowed (pay id value) v = 0 < v.locks id
IsAllowed (open_lock value) v = 0 < value
IsAllowed (join_locks from to) v = (from ≢ to) × (0 < v.count)

-- Two vaults are the same when their four parts are.
pub Vault-eq :
    {a b : Vault}
    → ((id : ℕ) → a.locks id ≡ b.locks id)
    → a.supply ≡ b.supply
    → a.count ≡ b.count
    → a.paid ≡ b.paid
    → a ≡ b
Vault-eq p q r s = λ i. record { locks = λ id. p id i; supply = q i; count = r i; paid = s i }

pub total_paid-append :
    (ts : List TokenTransfer) (t : TokenTransfer)
    → total_paid (ts ++ t ∷ []) ≡ total_paid ts + t.amount
unfolding total_paid
total_paid-append [] t = omega arith
total_paid-append (x ∷ ts) t = omega (arith, total_paid-append ts t)

-- A step of the contract is a move that the vault allows, and leaves the guard as it was.
pub record Moved (m : Move) (w w' : World) : Type 0 where
  pub allowed : IsAllowed m (vault_of w)
  pub vault : vault_of w' ≡ move_vault m (vault_of w)
  pub guard : w'.escrow.is_locked ≡ w.escrow.is_locked

module _ {env : Env} {id value unlock_time deposit_type : ℕ} (w w' : World) where
  -- What a deposit has paid.
  pub total_paid-deposit :
      {l : LockedBalance}
      → Deposited env id value unlock_time l deposit_type w w'
      → (deposit_type == merge_type) ≡ false
      → total_paid w'.transfers ≡ total_paid w.transfers + value
  total_paid-deposit d other = elim d.drawn [
    | inl (idle, still) ↦ rw still (ground arith)
    | inr (due, from, recipient, called, self, moved) ↦ rw moved (total_paid-append w.transfers _)
  ]

  -- A deposit that goes through on a lock that is not empty is a payment into it.
  pub deposit-Moved :
      Deposited env id value unlock_time (get_locked_balance w.escrow id) deposit_type w w'
      → (deposit_type == merge_type) ≡ false
      → 0 < (get_locked_balance w.escrow id).amount
      → Moved (pay id value) w w'
  unfolding vault_of move_vault
  deposit-Moved d other held = record {
    allowed = held;
    vault =
        Vault-eq (λ j. ground (arith, d.locks j)) d.supply
          (ap (λ (t : Token). t.total_supply) d.token) (total_paid-deposit d other);
    guard = d.guard;
  }
