-- ===== src/Calls/Signatures/Tables.antt =====
-- The tables of `get_entry_points` in ve/bin/ve.rs and ve/src/vedata.rs.
use Prim.Native.String.{String}
use casper_ve_cep.Prelude.{
  Bool, true, false, Option, none, some, List, [], ◌∷◌, ◌++◌, codes, text_eq, if◌then◌else◌,
}
use casper_ve_cep.Calls.Signatures.{
  ClType, unit_type, string_type, u64_type, u128_type, u256_type, key_type, meta_type, any_type,
  option_type, list_type,
}

-- `EntryPointAccess`: everybody, or who holds a reference of the group "constructor".
pub data Access : Type 0 where
  everybody : Access
  constructor_group : Access

pub record EntryPoint : Type 0 where
  pub name : String
  pub parameters : List (String × ClType)
  pub returns : ClType
  pub access : Access

abbrev pub public : String → List (String × ClType) → ClType → EntryPoint
public name parameters returns = record {
  name = name;
  parameters = parameters;
  returns = returns;
  access = everybody;
}

abbrev pub constructor_only : String → List (String × ClType) → ClType → EntryPoint
constructor_only name parameters returns = record {
  name = name;
  parameters = parameters;
  returns = returns;
  access = constructor_group;
}

-- The entry points that ve/bin/ve.rs adds first.
unfoldable pub token_entry_points : List EntryPoint
token_entry_points =
    constructor_only "constructor"
      (("name", string_type)
        ∷ ("symbol", string_type)
        ∷ ("meta", meta_type)
        ∷ ("token_contract_hash", key_type)
        ∷ ("art_proxy_contract_hash", key_type)
        ∷ [])
      unit_type
    ∷ public "name" [] string_type
    ∷ public "symbol" [] string_type
    ∷ public "meta" [] meta_type
    ∷ public "total_supply" [] u256_type
    ∷ public "balance_of" (("owner", key_type) ∷ []) u256_type
    ∷ public "owner_of" (("token_id", u256_type) ∷ []) (option_type key_type)
    ∷ public "token_meta" (("token_id", u256_type) ∷ []) meta_type
    ∷ public "update_token_meta" (("token_id", u256_type) ∷ ("token_meta", meta_type) ∷ [])
        unit_type
    ∷ public "transfer" (("recipient", key_type) ∷ ("token_ids", list_type u256_type) ∷ [])
        unit_type
    ∷ public "transfer_from"
        (("sender", key_type) ∷ ("recipient", key_type) ∷ ("token_ids", list_type u256_type) ∷ [])
        unit_type
    ∷ public "approve" (("spender", key_type) ∷ ("token_ids", list_type u256_type) ∷ []) unit_type
    ∷ public "get_approved" (("owner", key_type) ∷ ("token_id", u256_type) ∷ [])
        (option_type key_type)
    ∷ public "get_token_by_index" (("owner", key_type) ∷ ("index", u256_type) ∷ [])
        (option_type u256_type)
    ∷ []

-- The first part of those of ve/src/vedata.rs: votes and voting power.
unfoldable pub vote_entry_points : List EntryPoint
vote_entry_points =
    public "increase_amount_for" (("token_id", u256_type) ∷ ("amount", u128_type) ∷ []) unit_type
    ∷ public "get_past_votes_index" (("address", key_type) ∷ ("timestamp", u64_type) ∷ []) u64_type
    ∷ public "get_past_votes" (("address", key_type) ∷ ("timestamp", u64_type) ∷ []) u128_type
    ∷ public "get_past_total_supply" (("timestamp", u64_type) ∷ []) u128_type
    ∷ public "delegate" (("delegatee", key_type) ∷ []) unit_type
    ∷ public "get_votes" (("address", key_type) ∷ []) unit_type
    ∷ public "delegates" (("delegator", key_type) ∷ []) unit_type
    ∷ public "merge" (("from", u256_type) ∷ ("to", u256_type) ∷ []) unit_type
    ∷ public "detach" (("token_id", u256_type) ∷ []) unit_type
    ∷ public "attach" (("token_id", u256_type) ∷ []) unit_type
    ∷ public "abstain" (("token_id", u256_type) ∷ []) unit_type
    ∷ public "voting" (("token_id", u256_type) ∷ []) unit_type
    ∷ public "set_voter" (("voter", key_type) ∷ []) unit_type
    ∷ public "total_supply_at_t" (("t", u64_type) ∷ []) u128_type
    ∷ public "ve_total_supply" [] u128_type
    ∷ public "total_supply_at" (("block", u64_type) ∷ []) u128_type
    ∷ public "balance_of_at_nft" (("token_id", u256_type) ∷ ("block", u64_type) ∷ []) u128_type
    ∷ public "balance_of_nft_at" (("token_id", u256_type) ∷ ("epoch_time", u64_type) ∷ []) u128_type
    ∷ public "balance_of_nft" (("token_id", u256_type) ∷ []) u128_type
    ∷ []

-- The second part: locks and their readers.
unfoldable pub lock_entry_points : List EntryPoint
lock_entry_points =
    public "withdraw" (("token_id", u256_type) ∷ []) unit_type
    ∷ public "increase_unlock_time" (("token_id", u256_type) ∷ ("lock_duration", u64_type) ∷ [])
        unit_type
    ∷ public "increase_amount" (("token_id", u256_type) ∷ ("amount", u128_type) ∷ []) unit_type
    ∷ public "create_lock_for"
        (("lock_duration", u64_type) ∷ ("amount", u128_type) ∷ ("to", key_type) ∷ []) unit_type
    ∷ public "create_lock" (("lock_duration", u64_type) ∷ ("amount", u128_type) ∷ []) unit_type
    ∷ public "deposit_for" (("token_id", u256_type) ∷ ("amount", u128_type) ∷ []) unit_type
    ∷ public "check_point" [] unit_type
    ∷ public "locked_end" (("token_id", u256_type) ∷ []) u64_type
    ∷ public "user_point_history__ts" (("token_id", u256_type) ∷ ("epoch_index", u64_type) ∷ [])
        u128_type
    ∷ public "get_last_user_slope" (("token_id", u256_type) ∷ []) any_type
    ∷ public "set_art_proxy" (("new_art_proxy", key_type) ∷ []) unit_type
    ∷ public "set_team" (("new_team", key_type) ∷ []) unit_type
    ∷ []

unfoldable pub entry_points : List EntryPoint
unfolding token_entry_points vote_entry_points lock_entry_points
entry_points = token_entry_points ++ (vote_entry_points ++ lock_entry_points)

-- The entry point of a name: the one added last, as `add_entry_point` overwrites.
unfoldable pub declared : String → List EntryPoint → Option EntryPoint
declared name [] = none
declared name (e ∷ rest) = elim (declared name rest) [
  | some later ↦ some later
  | none ↦ if text_eq (codes e.name) (codes name) then some e else none
]

unfoldable pub same_type : ClType → ClType → Bool
same_type unit_type unit_type = true
same_type string_type string_type = true
same_type u64_type u64_type = true
same_type u128_type u128_type = true
same_type u256_type u256_type = true
same_type key_type key_type = true
same_type meta_type meta_type = true
same_type any_type any_type = true
same_type (option_type a) (option_type b) = same_type a b
same_type (list_type a) (list_type b) = same_type a b
same_type _ _ = false
