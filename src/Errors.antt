-- ===== src/Errors.antt =====
-- The error codes of the contract: `enum VeError` of ve/src/error.rs and `enum Error` of
-- ve/src/cep47.rs. Both become `ApiError::User(code)` when the contract reverts.
use casper_ve_cep.Prelude.{ℕ}

-- `enum VeError`
pub data VeError : Type 0 where
  invalid_account : VeError
  missing_installer : VeError
  invalid_installer : VeError
  unexpected_key_variant : VeError
  missing_token_owner : VeError
  invalid_token_owner : VeError
  failed_to_get_arg_bytes : VeError
  failed_to_create_dictionary : VeError
  missing_storage_uref : VeError
  invalid_storage_uref : VeError
  missing_owners_uref : VeError
  invalid_owners_uref : VeError
  failed_to_access_storage_dictionary : VeError
  failed_to_access_ownership_dictionary : VeError
  duplicate_minted : VeError
  failed_to_convert_to_cl_value : VeError
  missing_collection_name : VeError
  invalid_collection_name : VeError
  failed_to_serialize_meta_data : VeError
  missing_account : VeError
  missing_minting_status : VeError
  invalid_minting_status : VeError
  missing_collection_symbol : VeError
  invalid_collection_symbol : VeError
  missing_total_token_supply : VeError
  invalid_total_token_supply : VeError
  missing_token_id : VeError
  invalid_token_identifier : VeError
  missing_token_owners : VeError
  missing_account_hash : VeError
  invalid_account_hash : VeError
  token_supply_depleted : VeError
  missing_owned_tokens_dictionary : VeError
  token_already_belongs_to_minter_fatal : VeError
  fatal_token_id_duplication : VeError
  invalid_minter : VeError
  missing_minting_mode : VeError
  invalid_minting_mode : VeError
  missing_installer_key : VeError
  failed_to_convert_to_account_hash : VeError
  invalid_burner : VeError
  previously_burnt_token : VeError
  missing_allow_minting : VeError
  invalid_allow_minting : VeError
  missing_number_of_minted_tokens : VeError
  invalid_number_of_minted_tokens : VeError
  missing_token_meta_data : VeError
  invalid_token_meta_data : VeError
  missing_approved_account_hash : VeError
  invalid_approved_account_hash : VeError
  missing_approved_tokens_dictionary : VeError
  token_already_approved : VeError
  missing_approve_all : VeError
  invalid_approve_all : VeError
  missing_operator : VeError
  invalid_operator : VeError
  phantom : VeError
  contract_already_initialized : VeError
  minting_is_paused : VeError
  failure_to_parse_account_hash : VeError
  vacant_value_in_dictionary : VeError
  missing_ownership_mode : VeError
  invalid_ownership_mode : VeError
  invalid_token_minter : VeError
  missing_owned_tokens : VeError
  invalid_account_key_in_dictionary : VeError
  missing_json_schema : VeError
  invalid_json_schema : VeError
  invalid_key : VeError
  invalid_owned_tokens : VeError
  missing_token_uri : VeError
  invalid_token_uri : VeError
  missing_nft_kind : VeError
  invalid_nft_kind : VeError
  missing_holder_mode : VeError
  invalid_holder_mode : VeError
  missing_whitelist_mode : VeError
  invalid_whitelist_mode : VeError
  missing_contract_white_list : VeError
  invalid_contract_whitelist : VeError
  unlisted_contract_hash : VeError
  invalid_contract : VeError
  empty_contract_whitelist : VeError
  missing_receipt_name : VeError
  invalid_receipt_name : VeError
  invalid_json_metadata : VeError
  invalid_json_format : VeError
  failed_to_parse_cep_99_metadata : VeError
  failed_to_parse_721_metadata : VeError
  failed_to_parse_custom_metadata : VeError
  invalid_cep_99_metadata : VeError
  failed_to_jsonify_cep_99_metadata : VeError
  invalid_nft_721_metadata : VeError
  failed_to_jsonify_nft_721_metadata : VeError
  invalid_custom_metadata : VeError
  missing_nft_metadata_kind : VeError
  invalid_nft_metadata_kind : VeError
  missing_identifier_mode : VeError
  invalid_identifier_mode : VeError
  failed_to_parse_token_id : VeError
  missing_metadata_mutability : VeError
  invalid_metadata_mutability : VeError
  failed_to_jsonify_custom_metadata : VeError
  forbidden_metadata_update : VeError
  missing_burn_mode : VeError
  invalid_burn_mode : VeError
  missing_hash_by_index : VeError
  invalid_hash_by_index : VeError
  missing_index_by_hash : VeError
  invalid_index_by_hash : VeError
  missing_page_table_u_ref : VeError
  invalid_page_table_u_ref : VeError
  missing_page_limit : VeError
  invalid_page_limit : VeError
  invalid_page_number : VeError
  invalid_page_index : VeError
  missing_unmatched_hash_count : VeError
  invalid_unmatched_hash_count : VeError
  missing_package_hash_for_upgrade : VeError
  missing_page_uref : VeError
  invalid_page_uref : VeError
  cannot_upgrade_with_zero_supply : VeError
  cannot_install_with_zero_supply : VeError
  missing_migration_flag : VeError
  invalid_migration_flag : VeError
  contract_already_migrated : VeError
  unregistered_owner_in_mint : VeError
  unregistered_owner_in_transfer : VeError
  missing_reporting_mode : VeError
  invalid_reporting_mode : VeError
  missing_page : VeError
  unregistered_owner_from_migration : VeError
  exceeded_max_total_supply : VeError
  missing_cep_78_package_hash : VeError
  invalid_cep_78_invalid_hash : VeError
  invalid_package_hash_name : VeError
  invalid_access_key_name : VeError
  invalid_check_for_upgrade : VeError
  invalid_named_key_convention : VeError
  owner_reverse_lookup_mode_not_transferable : VeError
  invalid_additional_required_metadata : VeError
  invalid_optional_metadata : VeError
  missing_optional_nft_metadata_kind : VeError
  invalid_optional_nft_metadata_kind : VeError
  missing_additional_nft_metadata_kind : VeError
  invalid_additional_nft_metadata_kind : VeError
  invalid_requirement : VeError
  contract_locked : VeError
  not_team : VeError
  invalid_amount : VeError
  no_existing_lock : VeError
  cannot_add_to_expired_lock : VeError
  can_only_lock_till_time_in_future : VeError
  voting_lock_max_26_weeks : VeError
  not_owner_or_approved : VeError
  can_only_increase_lock : VeError
  invalid_block : VeError
  not_voter : VeError
  from_must_not_to : VeError
  too_many_token_ids : VeError

-- `e as u16`, the discriminant.
unfoldable pub ve_code : VeError → ℕ
ve_code invalid_account = 1
ve_code missing_installer = 2
ve_code invalid_installer = 3
ve_code unexpected_key_variant = 4
ve_code missing_token_owner = 5
ve_code invalid_token_owner = 6
ve_code failed_to_get_arg_bytes = 7
ve_code failed_to_create_dictionary = 8
ve_code missing_storage_uref = 9
ve_code invalid_storage_uref = 10
ve_code missing_owners_uref = 11
ve_code invalid_owners_uref = 12
ve_code failed_to_access_storage_dictionary = 13
ve_code failed_to_access_ownership_dictionary = 14
ve_code duplicate_minted = 15
ve_code failed_to_convert_to_cl_value = 16
ve_code missing_collection_name = 17
ve_code invalid_collection_name = 18
ve_code failed_to_serialize_meta_data = 19
ve_code missing_account = 20
ve_code missing_minting_status = 21
ve_code invalid_minting_status = 22
ve_code missing_collection_symbol = 23
ve_code invalid_collection_symbol = 24
ve_code missing_total_token_supply = 25
ve_code invalid_total_token_supply = 26
ve_code missing_token_id = 27
ve_code invalid_token_identifier = 28
ve_code missing_token_owners = 29
ve_code missing_account_hash = 30
ve_code invalid_account_hash = 31
ve_code token_supply_depleted = 32
ve_code missing_owned_tokens_dictionary = 33
ve_code token_already_belongs_to_minter_fatal = 34
ve_code fatal_token_id_duplication = 35
ve_code invalid_minter = 36
ve_code missing_minting_mode = 37
ve_code invalid_minting_mode = 38
ve_code missing_installer_key = 39
ve_code failed_to_convert_to_account_hash = 40
ve_code invalid_burner = 41
ve_code previously_burnt_token = 42
ve_code missing_allow_minting = 43
ve_code invalid_allow_minting = 44
ve_code missing_number_of_minted_tokens = 45
ve_code invalid_number_of_minted_tokens = 46
ve_code missing_token_meta_data = 47
ve_code invalid_token_meta_data = 48
ve_code missing_approved_account_hash = 49
ve_code invalid_approved_account_hash = 50
ve_code missing_approved_tokens_dictionary = 51
ve_code token_already_approved = 52
ve_code missing_approve_all = 53
ve_code invalid_approve_all = 54
ve_code missing_operator = 55
ve_code invalid_operator = 56
ve_code phantom = 57
ve_code contract_already_initialized = 58
ve_code minting_is_paused = 59
ve_code failure_to_parse_account_hash = 60
ve_code vacant_value_in_dictionary = 61
ve_code missing_ownership_mode = 62
ve_code invalid_ownership_mode = 63
ve_code invalid_token_minter = 64
ve_code missing_owned_tokens = 65
ve_code invalid_account_key_in_dictionary = 66
ve_code missing_json_schema = 67
ve_code invalid_json_schema = 68
ve_code invalid_key = 69
ve_code invalid_owned_tokens = 70
ve_code missing_token_uri = 71
ve_code invalid_token_uri = 72
ve_code missing_nft_kind = 73
ve_code invalid_nft_kind = 74
ve_code missing_holder_mode = 75
ve_code invalid_holder_mode = 76
ve_code missing_whitelist_mode = 77
ve_code invalid_whitelist_mode = 78
ve_code missing_contract_white_list = 79
ve_code invalid_contract_whitelist = 80
ve_code unlisted_contract_hash = 81
ve_code invalid_contract = 82
ve_code empty_contract_whitelist = 83
ve_code missing_receipt_name = 84
ve_code invalid_receipt_name = 85
ve_code invalid_json_metadata = 86
ve_code invalid_json_format = 87
ve_code failed_to_parse_cep_99_metadata = 88
ve_code failed_to_parse_721_metadata = 89
ve_code failed_to_parse_custom_metadata = 90
ve_code invalid_cep_99_metadata = 91
ve_code failed_to_jsonify_cep_99_metadata = 92
ve_code invalid_nft_721_metadata = 93
ve_code failed_to_jsonify_nft_721_metadata = 94
ve_code invalid_custom_metadata = 95
ve_code missing_nft_metadata_kind = 96
ve_code invalid_nft_metadata_kind = 97
ve_code missing_identifier_mode = 98
ve_code invalid_identifier_mode = 99
ve_code failed_to_parse_token_id = 100
ve_code missing_metadata_mutability = 101
ve_code invalid_metadata_mutability = 102
ve_code failed_to_jsonify_custom_metadata = 103
ve_code forbidden_metadata_update = 104
ve_code missing_burn_mode = 105
ve_code invalid_burn_mode = 106
ve_code missing_hash_by_index = 107
ve_code invalid_hash_by_index = 108
ve_code missing_index_by_hash = 109
ve_code invalid_index_by_hash = 110
ve_code missing_page_table_u_ref = 111
ve_code invalid_page_table_u_ref = 112
ve_code missing_page_limit = 113
ve_code invalid_page_limit = 114
ve_code invalid_page_number = 115
ve_code invalid_page_index = 116
ve_code missing_unmatched_hash_count = 117
ve_code invalid_unmatched_hash_count = 118
ve_code missing_package_hash_for_upgrade = 119
ve_code missing_page_uref = 120
ve_code invalid_page_uref = 121
ve_code cannot_upgrade_with_zero_supply = 122
ve_code cannot_install_with_zero_supply = 123
ve_code missing_migration_flag = 124
ve_code invalid_migration_flag = 125
ve_code contract_already_migrated = 126
ve_code unregistered_owner_in_mint = 127
ve_code unregistered_owner_in_transfer = 128
ve_code missing_reporting_mode = 129
ve_code invalid_reporting_mode = 130
ve_code missing_page = 131
ve_code unregistered_owner_from_migration = 132
ve_code exceeded_max_total_supply = 133
ve_code missing_cep_78_package_hash = 134
ve_code invalid_cep_78_invalid_hash = 135
ve_code invalid_package_hash_name = 136
ve_code invalid_access_key_name = 137
ve_code invalid_check_for_upgrade = 138
ve_code invalid_named_key_convention = 139
ve_code owner_reverse_lookup_mode_not_transferable = 140
ve_code invalid_additional_required_metadata = 141
ve_code invalid_optional_metadata = 142
ve_code missing_optional_nft_metadata_kind = 143
ve_code invalid_optional_nft_metadata_kind = 144
ve_code missing_additional_nft_metadata_kind = 145
ve_code invalid_additional_nft_metadata_kind = 146
ve_code invalid_requirement = 147
ve_code contract_locked = 148
ve_code not_team = 149
ve_code invalid_amount = 150
ve_code no_existing_lock = 151
ve_code cannot_add_to_expired_lock = 152
ve_code can_only_lock_till_time_in_future = 153
ve_code voting_lock_max_26_weeks = 154
ve_code not_owner_or_approved = 155
ve_code can_only_increase_lock = 156
ve_code invalid_block = 157
ve_code not_voter = 158
ve_code from_must_not_to = 159
ve_code too_many_token_ids = 160

-- `enum Error` of the CEP-47 trait.
pub data Error : Type 0 where
  permission_denied wrong_arguments token_id_already_exists token_id_doesnt_exist : Error

unfoldable pub error_code : Error → ℕ
error_code permission_denied = 1
error_code wrong_arguments = 2
error_code token_id_already_exists = 3
error_code token_id_doesnt_exist = 4
