-- ===== src/Host.antt =====
-- What the contract takes from the Casper host and from crates that are not part of the repository,
-- and the address helpers of ve/src/utils.rs and ve/src/dict.rs over it.
pub mod Addresses
use mathlib.Core.List.{reverse}
use mathlib.Core.Option
use casper_ve_cep.Prelude.{
  ℕ, zero, suc, ◌-◌, ◌/◌, ◌%◌, ◌^◌, Bool, true, false, not, Option, none, some, List, [], ◌∷◌, ◌++◌,
  get_elem?, Text, text_eq, to_string, ◌==◌,
}
use casper_ve_cep.Exec.{
  Exec, ◌>>=◌, pure, or_revert, revert, unexpected_key_variant, Outcome, done, failed, reverted,
}

-- `casper_types::Key`: the variants that the contract tells apart, and the rest. A 32-byte address is
-- the number that its bytes spell.
pub data Key : Type 0 where
  account : ℕ → Key
  hash : ℕ → Key
  other : ℕ → Key

-- `casper_types::system::CallStackElement`
pub data CallStackElement : Type 0 where
  session : ℕ → CallStackElement
  stored_session : ℕ → CallStackElement
  stored_contract : ℕ → ℕ → CallStackElement

-- One call of the contract: the functions of the host and of foreign crates, and the call's context.
pub record Env : Type 0 where
  -- `AccountHash::to_string`, and `hex::encode` of a 32-byte hash
  pub account_to_string : ℕ → Text
  pub hash_to_hex : ℕ → Text
  -- `Key::to_string` and `ContractPackageHash::to_string`
  pub key_to_string : Key → Text
  pub package_to_string : ℕ → Text
  -- `U256::to_string`
  pub u256_to_string : ℕ → Text
  -- `ToBytes::to_bytes` of `Key`, `U256` and `String`
  pub key_to_bytes : Key → List ℕ
  pub u256_to_bytes : ℕ → List ℕ
  pub string_to_bytes : Text → List ℕ
  -- `hex::encode(runtime::blake2b(bytes))`
  pub blake2b_hex : List ℕ → Text
  -- `runtime::get_call_stack()` and `get_blocktime()`, in milliseconds
  pub call_stack : List CallStackElement
  pub block_time : ℕ
  -- whether the ERC-20 token accepts `transfer_from(contract, from, recipient, amount)`
  pub transfer_accepted : Key → Key → Key → ℕ → Bool

abbrev pub key_eq : Key → Key → Bool
key_eq (account a) (account b) = a == b
key_eq (hash a) (hash b) = a == b
key_eq (other a) (other b) = a == b
key_eq _ _ = false

-- A dictionary of the contract: `Dict::get`, `Dict::set` and `Dict::remove` by item key.
abbrev pub Dict : Type 0 → Type 0
Dict V = Text → Option V

module _ {V : Type 0} where
  abbrev pub empty_dict : Dict V
  empty_dict k = none

  abbrev pub get : Dict V → Text → Option V
  get d k = d k

  abbrev pub set : Dict V → Text → V → Dict V
  set d k v j = elim (text_eq k j) [ true ↦ some v | false ↦ d j ]

  abbrev pub remove : Dict V → Text → Dict V
  remove d k j = elim (text_eq k j) [ true ↦ none | false ↦ d j ]

-- `null_key`: the account of 32 zero bytes
abbrev pub null_key : Key
null_key = account 0

-- `[0u8; 32]`
abbrev pub null_bytes : List ℕ
null_bytes = zeros 32
  where
    zeros : ℕ → List ℕ
    zeros zero = []
    zeros (suc n) = 0 ∷ zeros n

abbrev pub call_stack_element_to_key : CallStackElement → Key
call_stack_element_to_key (session a) = account a
call_stack_element_to_key (stored_session a) = account a
call_stack_element_to_key (stored_contract package_hash contract_hash) = hash package_hash

module _ (env : Env) where
  open env use {
    account_to_string, hash_to_hex, key_to_bytes, u256_to_bytes, string_to_bytes, blake2b_hex,
    call_stack, block_time,
  }

  -- The text under which `key_to_str` files an address, where it has one.
  abbrev pub key_label : Key → Option Text
  key_label (account a) = some (account_to_string a)
  key_label (hash h) = some (hash_to_hex h)
  key_label (other _) = none

  unfoldable pub key_to_str : {S : Type 0} → Key → Exec S Text
  key_to_str k s = elim (key_label k) [ none ↦ reverted unexpected_key_variant | some t ↦ done t s ]

  -- `key_and_value_to_str` at a `U256` and at a `String`.
  unfoldable pub key_and_value_to_str : Key → ℕ → Text
  key_and_value_to_str k v = blake2b_hex (key_to_bytes k ++ u256_to_bytes v)

  unfoldable pub key_and_string_to_str : Key → Text → Text
  key_and_string_to_str k v = blake2b_hex (key_to_bytes k ++ string_to_bytes v)

  abbrev pub get_last_call_stack_item : Option CallStackElement
  get_last_call_stack_item = get_elem? (reverse call_stack) 0

  abbrev pub get_immediate_call_stack_item : Option CallStackElement
  get_immediate_call_stack_item = get_elem? (reverse call_stack) 1

  -- The contract's own address, if the call stack has one.
  abbrev pub self_key : Option Key
  self_key = Option.map call_stack_element_to_key get_last_call_stack_item

  unfoldable pub get_self_key : {S : Type 0} → Exec S Key
  get_self_key = or_revert self_key

  -- The caller's address, if the call stack has one.
  abbrev pub immediate_caller : Option Key
  immediate_caller = Option.map call_stack_element_to_key get_immediate_call_stack_item

  unfoldable pub get_immediate_caller_key : {S : Type 0} → Exec S Key
  get_immediate_caller_key = or_revert immediate_caller

  unfoldable pub is_null : Key → Bool
  is_null k = text_eq (key_to_bytes k) null_bytes

  unfoldable pub is_not_null : Key → Bool
  unfolding is_null
  is_not_null k = not (is_null k)

  -- `vedata::current_block_timestamp_seconds`
  unfoldable pub current_block_timestamp_seconds : ℕ
  current_block_timestamp_seconds = block_time % (2 ^ 64 - 1) / 1000
