-- ===== src/Token/Cep47.antt =====
-- The default methods of `trait CEP47` (ve/src/cep47.rs), which `NFTToken` takes over unchanged. A
-- `Result` of the source is the outcome of the action: `throw` is an early `return Err(..)`.
pub mod Mint
pub mod Burn
pub mod Approvals
pub mod Transfer
use mathlib.Core.List.{zip}
use casper_ve_cep.Prelude.{
  ℕ, ◌+◌, ◌-◌, ◌^◌, Bool, true, false, not, Option, none, some, List, [], ◌∷◌, length, is_some,
  ◌==◌, Text, ltb, if◌then◌else◌,
}
use casper_ve_cep.Errors.{
  Error, permission_denied, wrong_arguments, token_id_already_exists, token_id_doesnt_exist,
}
use casper_ve_cep.Exec.{
  Exec, ◌>>=◌, ◌>>◌, modify, gets, skip, ensure, unless, pure, throw, unwrap, u256_add, u256_sub,
}
use casper_ve_cep.Host.{Env, Key, key_eq, get_immediate_caller_key}
use casper_ve_cep.Token.OwnedTokens.{get_balances, set_token, remove_token, get_token_by_index}
use casper_ve_cep.Token.State.{
  Token, TokenId, Meta, Cep47Event, mint_event, burn_event, approve_event, transfer_event,
  metadata_update, set_total_supply, on_owned, owners_get, owners_set, owners_remove, metadata_get,
  metadata_set, metadata_remove, allowances_get, allowances_set, allowances_remove, emit,
}

module _ (env : Env) where
  abbrev pub balance_of : Key → Exec Token ℕ
  balance_of owner = on_owned (get_balances env owner)

  abbrev pub owner_of : Token → TokenId → Option Key
  owner_of s id = owners_get env s id

  abbrev pub token_meta : Token → TokenId → Option Meta
  token_meta s id = metadata_get env s id

  abbrev pub get_approved : Token → Key → TokenId → Option Key
  get_approved s owner id = allowances_get env s owner id

  unfoldable pub set_token_meta : TokenId → Meta → Exec Token (Unit {0})
  unfolding emit
  set_token_meta id m = do
    exists ← gets (λ s. is_some (owner_of s id))
    ensure exists token_id_doesnt_exist
    metadata_set env id m
    emit env (metadata_update id)

  unfoldable pub validate_token_ids : List TokenId → Token → Bool
  validate_token_ids [] s = true
  validate_token_ids (id ∷ ids) s =
      let rest = validate_token_ids ids s in if is_some (owner_of s id) then false else rest

  -- The first loop of `mint`.
  unfoldable pub check_unminted : List TokenId → Exec Token (Unit {0})
  check_unminted [] = skip
  check_unminted (id ∷ ids) = do
    exists ← gets (λ s. is_some (owner_of s id))
    ensure (not exists) token_id_already_exists
    check_unminted ids

  -- The second loop of `mint`.
  unfoldable pub mint_all : Key → List (TokenId × Meta) → Exec Token (Unit {0})
  mint_all recipient [] = skip
  mint_all recipient ((id, m) ∷ rest) = do
    metadata_set env id m
    owners_set env id recipient
    on_owned (set_token env recipient id)
    mint_all recipient rest

  unfoldable pub mint : Key → List TokenId → List Meta → Exec Token (List TokenId)
  unfolding u256_add
  mint recipient ids metas = do
    ensure (length ids == length metas) wrong_arguments
    check_unminted ids
    mint_all recipient (zip ids metas)
    supply ← gets (λ s. s.total_supply)
    total ← u256_add supply (length ids)
    set_total_supply total
    emit env (mint_event recipient ids)
    pure ids

  unfoldable pub is_approved : Token → Key → TokenId → Key → Bool
  is_approved s owner id spender = elim (allowances_get env s owner id) [
    | none ↦ false
    | some spender_of ↦ key_eq spender_of spender
  ]

  unfoldable pub is_approved_or_owner : TokenId → Key → Exec Token Bool
  unfolding is_approved
  is_approved_or_owner id spender = do
    found ← gets (λ s. owner_of s id)
    owner ← unwrap found
    gets (λ s. if key_eq owner spender then true else is_approved s owner id spender)

  -- The first loop of `burn_internal` and of `transfer_from_internal`.
  unfoldable pub check_owner : Key → List TokenId → Exec Token (Unit {0})
  check_owner owner [] = skip
  check_owner owner (id ∷ ids) = do
    found ← gets (λ s. owners_get env s id)
    elim found [
      | none ↦ throw token_id_doesnt_exist
      | some k ↦ ensure (key_eq k owner) permission_denied
    ]
    check_owner owner ids

  unfoldable pub burn_all : Key → List TokenId → Exec Token (Unit {0})
  burn_all owner [] = skip
  burn_all owner (id ∷ ids) = do
    on_owned (remove_token env owner id)
    metadata_remove env id
    owners_remove env id
    allowances_remove env owner id
    burn_all owner ids

  unfoldable pub burn_internal : Key → List TokenId → Exec Token (Unit {0})
  unfolding u256_sub
  burn_internal owner ids = do
    check_owner owner ids
    burn_all owner ids
    supply ← gets (λ s. s.total_supply)
    total ← u256_sub supply (length ids)
    set_total_supply total
    emit env (burn_event owner ids)

  -- The loop of `burn`.
  unfoldable pub check_approved : Key → Key → List TokenId → Exec Token (Unit {0})
  check_approved owner spender [] = skip
  check_approved owner spender (id ∷ ids) = do
    approved ← gets (λ s. is_approved s owner id spender)
    ensure approved permission_denied
    check_approved owner spender ids

  unfoldable pub burn : Key → List TokenId → Exec Token (Unit {0})
  burn owner ids = do
    spender ← get_immediate_caller_key env
    unless (key_eq spender owner) (check_approved owner spender ids)
    burn_internal owner ids

  -- The loop of `approve`.
  unfoldable pub approve_all : Key → Key → List TokenId → Exec Token (Unit {0})
  approve_all caller spender [] = skip
  approve_all caller spender (id ∷ ids) = do
    found ← gets (λ s. owner_of s id)
    elim found [
      | none ↦ throw wrong_arguments
      | some owner ↦
          ensure (key_eq owner caller) permission_denied >> allowances_set env caller id spender
    ]
    approve_all caller spender ids

  unfoldable pub approve : Key → List TokenId → Exec Token (Unit {0})
  approve spender ids = do
    caller ← get_immediate_caller_key env
    approve_all caller spender ids
    emit env (approve_event caller spender ids)

  unfoldable pub transfer_all : Key → Key → List TokenId → Exec Token (Unit {0})
  transfer_all owner recipient [] = skip
  transfer_all owner recipient (id ∷ ids) = do
    on_owned (remove_token env owner id)
    on_owned (set_token env recipient id)
    owners_set env id recipient
    transfer_all owner recipient ids

  unfoldable pub transfer_from_internal : Key → Key → List TokenId → Exec Token (Unit {0})
  transfer_from_internal owner recipient ids = do
    check_owner owner ids
    transfer_all owner recipient ids
    emit env (transfer_event owner recipient ids)

  -- The loop of `transfer_from`: each approval is used up as it is checked.
  unfoldable pub use_approvals : Key → Key → List TokenId → Exec Token (Unit {0})
  use_approvals owner spender [] = skip
  use_approvals owner spender (id ∷ ids) = do
    approved ← gets (λ s. is_approved s owner id spender)
    ensure approved permission_denied
    allowances_remove env owner id
    use_approvals owner spender ids

  unfoldable pub transfer_from : Key → Key → List TokenId → Exec Token (Unit {0})
  transfer_from owner recipient ids = do
    spender ← get_immediate_caller_key env
    unless (key_eq owner spender) (use_approvals owner spender ids)
    transfer_from_internal owner recipient ids

  unfoldable pub transfer : Key → List TokenId → Exec Token (Unit {0})
  transfer recipient ids = do
    owner ← get_immediate_caller_key env
    transfer_from owner recipient ids
