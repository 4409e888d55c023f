-- ===== src/Escrow/State.antt =====
-- The storage of the vote escrow (ve/src/vedata.rs, sections ESCROW and GAUGE VOTING LOGIC) and its
-- readers and writers.
use casper_ve_cep.Prelude.{ℕ, ◌++◌, Bool, false, ℤ, pos, Text, to_string, get_or}
use casper_ve_cep.Host.{Env, Key, Dict, get, set, empty_dict, current_block_timestamp_seconds}

-- `WEEK`, `MAXTIME` (and `I_MAXTIME`) in seconds, and `MULTIPLIER`.
abbrev pub week : ℕ
week = 604800

abbrev pub max_time : ℕ
max_time = 15724800

abbrev pub multiplier : ℕ
multiplier = 1_000_000_000_000_000_000

-- The kinds of deposit.
abbrev pub deposit_for_type : ℕ
deposit_for_type = 0

abbrev pub create_lock_type : ℕ
create_lock_type = 1

abbrev pub increase_lock_amount : ℕ
increase_lock_amount = 2

abbrev pub increase_unlock_time_type : ℕ
increase_unlock_time_type = 3

abbrev pub merge_type : ℕ
merge_type = 4

abbrev pub current_block_number : ℕ
current_block_number = 100

pub record LockedBalance : Type 0 where
  pub amount : ℕ
  pub end : ℕ

abbrev pub default_lock : LockedBalance
default_lock = record { amount = 0; end = 0 }

pub record Point : Type 0 where
  pub bias : ℤ
  pub slope : ℤ
  pub ts : ℕ
  pub blk : ℕ

abbrev pub default_point : Point
default_point = record { bias = pos 0; slope = pos 0; ts = 0; blk = 0 }

pub record Escrow : Type 0 where
  pub is_locked : Bool
  pub token_contract : Key
  pub art_proxy_contract : Key
  pub team : Key
  pub voter : Key
  pub point_history : Dict Point
  pub user_point_epoch : Dict ℕ
  pub user_point_history : Dict Point
  pub locked : Dict LockedBalance
  pub slope_changes : Dict ℤ
  pub epoch : ℕ
  pub ve_supply : ℕ
  pub attachments : Dict ℕ
  pub voted : Dict Bool

abbrev pub get_locked_balance : Escrow → ℕ → LockedBalance
get_locked_balance s token_id = get_or (get s.locked (to_string token_id)) default_lock

abbrev pub get_slope_changes : Escrow → ℕ → ℤ
get_slope_changes s time = get_or (get s.slope_changes (to_string time)) (pos 0)

abbrev pub save_slope_changes : ℕ → ℤ → Escrow → Escrow
save_slope_changes time val s = record s {
  slope_changes = set s.slope_changes (to_string time) val;
}

-- The item key of a user's point: the two numbers in decimal, with nothing between them.
abbrev pub user_point_key : ℕ → ℕ → Text
user_point_key token_id uepoch = to_string token_id ++ to_string uepoch

abbrev pub get_user_point : Escrow → ℕ → ℕ → Point
get_user_point s token_id uepoch =
    get_or (get s.user_point_history (user_point_key token_id uepoch)) default_point

abbrev pub get_point : Escrow → ℕ → Point
get_point s uepoch = get_or (get s.point_history (to_string uepoch)) default_point

abbrev pub get_user_epoch : Escrow → ℕ → ℕ
get_user_epoch s token_id = get_or (get s.user_point_epoch (to_string token_id)) 0

abbrev pub get_attachments : Escrow → ℕ → ℕ
get_attachments s token_id = get_or (get s.attachments (to_string token_id)) 0

abbrev pub get_voted : Escrow → ℕ → Bool
get_voted s token_id = get_or (get s.voted (to_string token_id)) false

-- What `initialize` leaves, called by `caller` at the block of `env`.
unfoldable pub initialize : Env → Key → Key → Key → Escrow
initialize env caller token_contract art_proxy_contract = record {
  is_locked = false;
  token_contract = token_contract;
  art_proxy_contract = art_proxy_contract;
  team = caller;
  voter = caller;
  point_history = set empty_dict (to_string 0) (record {
    bias = pos 0;
    slope = pos 0;
    ts = current_block_timestamp_seconds env;
    blk = current_block_number;
  });
  user_point_epoch = empty_dict;
  user_point_history = empty_dict;
  locked = empty_dict;
  slope_changes = empty_dict;
  epoch = 0;
  ve_supply = 0;
  attachments = empty_dict;
  voted = empty_dict;
}
