-- ===== src/Calls/Signatures/Returns.antt =====
-- The names of the entry points of ve/bin/ve.rs and ve/src/vedata.rs, and the types of what they
-- return.
use Prim.Native.String.{String}
use casper_ve_cep.Calls.Signatures.{
  TokenCall, EscrowCall, Call, ClType, unit_type, string_type, u64_type, u128_type, u256_type,
  key_type, meta_type, any_type, option_type,
}

-- The name under which an entry point is exported.
abbrev pub token_name : TokenCall → String
token_name TokenCall.name = "name"
token_name TokenCall.symbol = "symbol"
token_name TokenCall.meta = "meta"
token_name TokenCall.total_supply = "total_supply"
token_name (TokenCall.balance_of x) = "balance_of"
token_name (TokenCall.owner_of x) = "owner_of"
token_name (TokenCall.token_meta x) = "token_meta"
token_name (TokenCall.update_token_meta x y) = "update_token_meta"
token_name (TokenCall.transfer x y) = "transfer"
token_name (TokenCall.transfer_from x y z) = "transfer_from"
token_name (TokenCall.approve x y) = "approve"
token_name (TokenCall.get_approved x y) = "get_approved"
token_name (TokenCall.get_token_by_index x y) = "get_token_by_index"

abbrev pub escrow_name : EscrowCall → String
escrow_name (EscrowCall.increase_amount_for x y) = "increase_amount_for"
escrow_name (EscrowCall.get_past_votes_index x y) = "get_past_votes_index"
escrow_name (EscrowCall.get_past_votes x y) = "get_past_votes"
escrow_name (EscrowCall.get_past_total_supply x) = "get_past_total_supply"
escrow_name (EscrowCall.delegate x) = "delegate"
escrow_name (EscrowCall.get_votes x) = "get_votes"
escrow_name (EscrowCall.delegates x) = "delegates"
escrow_name (EscrowCall.merge x y) = "merge"
escrow_name (EscrowCall.detach x) = "detach"
escrow_name (EscrowCall.attach x) = "attach"
escrow_name (EscrowCall.abstain x) = "abstain"
escrow_name (EscrowCall.voting x) = "voting"
escrow_name (EscrowCall.set_voter x) = "set_voter"
escrow_name (EscrowCall.total_supply_at_t x) = "total_supply_at_t"
escrow_name EscrowCall.ve_total_supply = "ve_total_supply"
escrow_name (EscrowCall.total_supply_at x) = "total_supply_at"
escrow_name (EscrowCall.balance_of_at_nft x y) = "balance_of_at_nft"
escrow_name (EscrowCall.balance_of_nft_at x y) = "balance_of_nft_at"
escrow_name (EscrowCall.balance_of_nft x) = "balance_of_nft"
escrow_name EscrowCall.withdraw = "withdraw"
escrow_name (EscrowCall.increase_unlock_time x y) = "increase_unlock_time"
escrow_name (EscrowCall.increase_amount x y) = "increase_amount"
escrow_name (EscrowCall.create_lock_for x y z) = "create_lock_for"
escrow_name (EscrowCall.create_lock x y) = "create_lock"
escrow_name (EscrowCall.deposit_for x y) = "deposit_for"
escrow_name EscrowCall.check_point = "check_point"
escrow_name (EscrowCall.locked_end x) = "locked_end"
escrow_name (EscrowCall.user_point_history_ts x y) = "user_point_history__ts"
escrow_name (EscrowCall.get_last_user_slope x) = "get_last_user_slope"
escrow_name (EscrowCall.set_art_proxy x) = "set_art_proxy"
escrow_name (EscrowCall.set_team x) = "set_team"

-- The type of what a call returns.
abbrev pub token_returns : TokenCall → ClType
token_returns TokenCall.name = string_type
token_returns TokenCall.symbol = string_type
token_returns TokenCall.meta = meta_type
token_returns TokenCall.total_supply = u256_type
token_returns (TokenCall.balance_of x) = u256_type
token_returns (TokenCall.owner_of x) = option_type key_type
token_returns (TokenCall.token_meta x) = option_type meta_type
token_returns (TokenCall.update_token_meta x y) = unit_type
token_returns (TokenCall.transfer x y) = unit_type
token_returns (TokenCall.transfer_from x y z) = unit_type
token_returns (TokenCall.approve x y) = unit_type
token_returns (TokenCall.get_approved x y) = option_type key_type
token_returns (TokenCall.get_token_by_index x y) = option_type u256_type

abbrev pub escrow_returns : EscrowCall → ClType
escrow_returns (EscrowCall.increase_amount_for x y) = unit_type
escrow_returns (EscrowCall.get_past_votes_index x y) = u64_type
escrow_returns (EscrowCall.get_past_votes x y) = u128_type
escrow_returns (EscrowCall.get_past_total_supply x) = u128_type
escrow_returns (EscrowCall.delegate x) = unit_type
escrow_returns (EscrowCall.get_votes x) = u128_type
escrow_returns (EscrowCall.delegates x) = key_type
escrow_returns (EscrowCall.merge x y) = unit_type
escrow_returns (EscrowCall.detach x) = unit_type
escrow_returns (EscrowCall.attach x) = unit_type
escrow_returns (EscrowCall.abstain x) = unit_type
escrow_returns (EscrowCall.voting x) = unit_type
escrow_returns (EscrowCall.set_voter x) = unit_type
escrow_returns (EscrowCall.total_supply_at_t x) = u128_type
escrow_returns EscrowCall.ve_total_supply = u128_type
escrow_returns (EscrowCall.total_supply_at x) = u128_type
escrow_returns (EscrowCall.balance_of_at_nft x y) = u128_type
escrow_returns (EscrowCall.balance_of_nft_at x y) = u128_type
escrow_returns (EscrowCall.balance_of_nft x) = u128_type
escrow_returns EscrowCall.withdraw = unit_type
escrow_returns (EscrowCall.increase_unlock_time x y) = unit_type
escrow_returns (EscrowCall.increase_amount x y) = unit_type
escrow_returns (EscrowCall.create_lock_for x y z) = unit_type
escrow_returns (EscrowCall.create_lock x y) = unit_type
escrow_returns (EscrowCall.deposit_for x y) = unit_type
escrow_returns EscrowCall.check_point = unit_type
escrow_returns (EscrowCall.locked_end x) = u64_type
escrow_returns (EscrowCall.user_point_history_ts x y) = u128_type
escrow_returns (EscrowCall.get_last_user_slope x) = any_type
escrow_returns (EscrowCall.set_art_proxy x) = unit_type
escrow_returns (EscrowCall.set_team x) = unit_type

abbrev pub call_name : Call → String
call_name (Call.token c) = token_name c
call_name (Call.escrow c) = escrow_name c

abbrev pub returns : Call → ClType
returns (Call.token c) = token_returns c
returns (Call.escrow c) = escrow_returns c
