-- ===== src/Contract/World.antt =====
-- The whole storage of the contract, and the calls of the ERC-20 token (ve/src/erc20_helpers.rs).
use casper_ve_cep.Prelude.{ℕ, Bool, true, false, not, List, [], ◌∷◌, ◌++◌, Text}
use casper_ve_cep.Errors.{contract_locked}
use casper_ve_cep.Exec.{
  Exec, done, reverted, ◌>>=◌, ◌>>◌, modify, gets, require, revert, panic, callee_failed, zoom,
  unless,
}
use casper_ve_cep.Host.{Env, Key, account, hash, other, get_immediate_caller_key}
use casper_ve_cep.Token.State.{Token, Meta, init}
use casper_ve_cep.Escrow.State.{Escrow, initialize}
use casper_ve_cep.Votes.State.{Votes, no_votes}

-- One accepted call `transfer_from(owner, recipient, amount)` of a token contract, with the guard of
-- ve/src/lock.rs as it stands while the contract calls out.
pub record TokenTransfer : Type 0 where
  pub contract : Key
  pub from : Key
  pub recipient : Key
  pub amount : ℕ
  pub locked : Bool

pub record World : Type 0 where
  pub token : Token
  pub escrow : Escrow
  pub votes : Votes
  pub transfers : List TokenTransfer

abbrev pub on_token : {A : Type 0} → Exec Token A → Exec World A
on_token = zoom (λ w. w.token) (λ w t. record w { token = t })

abbrev pub on_escrow : {A : Type 0} → Exec Escrow A → Exec World A
on_escrow = zoom (λ w. w.escrow) (λ w e. record w { escrow = e })

abbrev pub on_votes : {A : Type 0} → Exec Votes A → Exec World A
on_votes = zoom (λ w. w.votes) (λ w v. record w { votes = v })

-- `Key::into_hash().unwrap()`
abbrev pub contract_of : Key → Exec World (Unit {0})
contract_of (hash h) w = done tt w
contract_of (account a) w = reverted panic
contract_of (other o) w = reverted panic

-- ve/src/lock.rs
unfoldable pub when_not_locked : Exec World (Unit {0})
when_not_locked = do locked ← gets (λ w. w.escrow.is_locked); require (not locked) contract_locked

abbrev pub set_locked : Bool → Exec World (Unit {0})
set_locked b = on_escrow (modify (λ e. record e { is_locked = b }))

unfoldable pub lock_contract : Exec World (Unit {0})
lock_contract = set_locked true

unfoldable pub unlock_contract : Exec World (Unit {0})
unlock_contract = set_locked false

module _ (env : Env) where
  -- `erc20_helpers::transfer_from`: a call that the token refuses stops this one too.
  unfoldable pub transfer_from : Key → Key → Key → ℕ → Exec World (Unit {0})
  transfer_from contract from recipient amount = do
    contract_of contract
    unless (env.transfer_accepted contract from recipient amount) (revert callee_failed)
    modify (λ w. record w {
      transfers =
          w.transfers
          ++ record {
            contract = contract;
            from = from;
            recipient = recipient;
            amount = amount;
            locked = w.escrow.is_locked;
          }
            ∷ [];
    })

  -- What `constructor` of ve/bin/ve.rs leaves, called once at installation.
  unfoldable pub constructor : Text → Text → Meta → Key → Key → Exec World (Unit {0})
  unfolding init initialize get_immediate_caller_key
  constructor name symbol meta token_contract art_proxy_contract = do
    caller ← get_immediate_caller_key env
    modify (λ w. record {
      token = init name symbol meta;
      escrow = initialize env caller token_contract art_proxy_contract;
      votes = no_votes;
      transfers = w.transfers;
    })
