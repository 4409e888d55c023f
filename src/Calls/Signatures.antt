-- ===== src/Calls/Signatures.antt =====
-- The entry points of the contract: the calls with their decoded arguments, the values that they
-- return, the types that their wrappers read (ve/bin/ve.rs and ve/src/vedata.rs), and the tables of
-- both `get_entry_points`.
pub mod Tables
pub mod Returns
use casper_ve_cep.Prelude.{ℕ, ℤ, Option, List, Text}
use casper_ve_cep.Host.{Key}
use casper_ve_cep.Token.State.{TokenId, Meta}

-- The entry points of ve/bin/ve.rs, save the constructor.
pub data TokenCall : Type 0 where
  name : TokenCall
  symbol : TokenCall
  meta : TokenCall
  total_supply : TokenCall
  balance_of : Key → TokenCall
  get_token_by_index : Key → ℕ → TokenCall
  owner_of : TokenId → TokenCall
  token_meta : TokenId → TokenCall
  update_token_meta : TokenId → Meta → TokenCall
  transfer : Key → List TokenId → TokenCall
  transfer_from : Key → Key → List TokenId → TokenCall
  approve : Key → List TokenId → TokenCall
  get_approved : Key → TokenId → TokenCall

-- The entry points of ve/src/vedata.rs. A token id is the `U256` that is narrowed to `u64`.
pub data EscrowCall : Type 0 where
  increase_amount_for : ℕ → ℕ → EscrowCall
  get_past_votes_index : Key → ℕ → EscrowCall
  get_past_votes : Key → ℕ → EscrowCall
  get_past_total_supply : ℕ → EscrowCall
  delegate : Key → EscrowCall
  get_votes : Key → EscrowCall
  delegates : Key → EscrowCall
  merge : ℕ → ℕ → EscrowCall
  detach : ℕ → EscrowCall
  attach : ℕ → EscrowCall
  abstain : ℕ → EscrowCall
  voting : ℕ → EscrowCall
  set_voter : Key → EscrowCall
  total_supply_at_t : ℕ → EscrowCall
  ve_total_supply : EscrowCall
  total_supply_at : ℕ → EscrowCall
  balance_of_at_nft : ℕ → ℕ → EscrowCall
  balance_of_nft_at : ℕ → ℕ → EscrowCall
  balance_of_nft : ℕ → EscrowCall
  withdraw : EscrowCall
  increase_unlock_time : ℕ → ℕ → EscrowCall
  increase_amount : ℕ → ℕ → EscrowCall
  create_lock_for : ℕ → ℕ → Key → EscrowCall
  create_lock : ℕ → ℕ → EscrowCall
  deposit_for : ℕ → ℕ → EscrowCall
  check_point : EscrowCall
  locked_end : ℕ → EscrowCall
  user_point_history_ts : ℕ → ℕ → EscrowCall
  get_last_user_slope : ℕ → EscrowCall
  set_art_proxy : Key → EscrowCall
  set_team : Key → EscrowCall

pub data Call : Type 0 where
  token : TokenCall → Call
  escrow : EscrowCall → Call

-- `casper_types::CLType`, as far as the tables use it. `TokenId` is `U256`, `Meta` a map of texts.
pub data ClType : Type 0 where
  unit_type : ClType
  string_type : ClType
  u64_type : ClType
  u128_type : ClType
  u256_type : ClType
  key_type : ClType
  meta_type : ClType
  any_type : ClType
  option_type : ClType → ClType
  list_type : ClType → ClType

-- What an entry point hands to `runtime::ret`; `unit_value` where it calls no `ret`.
pub data Value : Type 0 where
  unit_value : Value
  string_value : Text → Value
  u64_value : ℕ → Value
  u128_value : ℕ → Value
  u256_value : ℕ → Value
  key_value : Key → Value
  meta_value : Meta → Value
  i128_value : ℤ → Value
  optional_key : Option Key → Value
  optional_meta : Option Meta → Value
  optional_id : Option TokenId → Value

-- `CLTyped::cl_type` of a value; the one of `I128` is `Any` (ve/src/I128.rs).
abbrev pub cl_type : Value → ClType
cl_type unit_value = unit_type
cl_type (string_value t) = string_type
cl_type (u64_value n) = u64_type
cl_type (u128_value n) = u128_type
cl_type (u256_value n) = u256_type
cl_type (key_value k) = key_type
cl_type (meta_value m) = meta_type
cl_type (i128_value x) = any_type
cl_type (optional_key k) = option_type key_type
cl_type (optional_meta m) = option_type meta_type
cl_type (optional_id i) = option_type u256_type
