-- ===== src/Token/OwnedTokens.antt =====
-- `struct OwnedTokens` of ve/src/data.rs: for each owner the tokens it holds, numbered from 0 without
-- gaps. `tokens` files a token under owner and number, `indexes` its number under owner and token.
pub mod Effects
pub mod Enumeration
pub mod Inversion
use casper_ve_cep.Prelude.{ℕ, ◌+◌, ◌-◌, Option, none, some, get_or}
use casper_ve_cep.Exec.{Exec, ◌>>=◌, ◌>>◌, modify, gets, skip, or_revert, u256_add, u256_sub}
use casper_ve_cep.Host.{Env, Key, Dict, get, set, remove, key_to_str, key_and_value_to_str}
use Prim.Native.Nat.{compare, Ordering}

pub record OwnedTokens : Type 0 where
  pub tokens : Dict ℕ
  pub indexes : Dict ℕ
  pub balances : Dict ℕ

module _ (env : Env) where
  abbrev pub get_token_by_index : OwnedTokens → Key → ℕ → Option ℕ
  get_token_by_index o owner index = get o.tokens (key_and_value_to_str env owner index)

  abbrev pub get_index_by_token : OwnedTokens → Key → ℕ → Option ℕ
  get_index_by_token o owner value = get o.indexes (key_and_value_to_str env owner value)

  unfoldable pub get_balances : Key → Exec OwnedTokens ℕ
  unfolding key_to_str
  get_balances owner = do name ← key_to_str env owner; gets (λ o. get_or (get o.balances name) 0)

  unfoldable pub set_balances : Key → ℕ → Exec OwnedTokens (Unit {0})
  unfolding key_to_str
  set_balances owner value = do
    name ← key_to_str env owner
    modify (λ o. record o { balances = set o.balances name value })

  abbrev put_index : Key → ℕ → ℕ → Exec OwnedTokens (Unit {0})
  put_index owner token index =
      modify
        (λ o. record o { indexes = set o.indexes (key_and_value_to_str env owner token) index })

  abbrev put_token : Key → ℕ → ℕ → Exec OwnedTokens (Unit {0})
  put_token owner index token =
      modify (λ o. record o { tokens = set o.tokens (key_and_value_to_str env owner index) token })

  abbrev drop_index : Key → ℕ → Exec OwnedTokens (Unit {0})
  drop_index owner token =
      modify (λ o. record o { indexes = remove o.indexes (key_and_value_to_str env owner token) })

  abbrev drop_token : Key → ℕ → Exec OwnedTokens (Unit {0})
  drop_token owner index =
      modify (λ o. record o { tokens = remove o.tokens (key_and_value_to_str env owner index) })

  unfoldable pub set_token : Key → ℕ → Exec OwnedTokens (Unit {0})
  unfolding get_balances set_balances u256_add
  set_token owner value = do
    length ← get_balances owner
    put_index owner value length
    put_token owner length value
    next ← u256_add length 1
    set_balances owner next

  -- The three cases of `length.cmp(&(index + 1))`.
  abbrev pub close_gap : Key → ℕ → ℕ → Ordering → Exec OwnedTokens (Unit {0})
  close_gap owner length index Ordering.eq = do
    top ← u256_sub length 1
    drop_token owner top
    set_balances owner top
  close_gap owner length index Ordering.gt = do
    top ← u256_sub length 1
    found ← gets (λ o. get_token_by_index o owner top)
    last ← or_revert found
    put_index owner last index
    put_token owner index last
    drop_token owner top
    set_balances owner top
  close_gap owner length index Ordering.lt = skip

  unfoldable pub remove_token : Key → ℕ → Exec OwnedTokens (Unit {0})
  unfolding get_balances set_balances u256_add u256_sub
  remove_token owner value = do
    length ← get_balances owner
    found ← gets (λ o. get_index_by_token o owner value)
    index ← or_revert found
    next ← u256_add index 1
    close_gap owner length index (compare length next)
    drop_index owner value
