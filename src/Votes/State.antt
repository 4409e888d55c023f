-- ===== src/Votes/State.antt =====
-- Delegation of votes: the dictionaries of section DAO VOTING STORAGE of ve/src/vedata.rs.
use casper_ve_cep.Prelude.{
  ℕ, ◌-◌, ◌++◌, List, [], Text, ◌&&◌, ltb, ◌==◌, if◌then◌else◌, get_or, le_bytes, as_u64,
}
use casper_ve_cep.Exec.{Exec, ◌>>=◌, modify, gets, pure}
use casper_ve_cep.Host.{
  Env, Key, Dict, get, set, empty_dict, key_to_str, null_key, is_null,
  current_block_timestamp_seconds,
}

pub record Checkpoint : Type 0 where
  pub timestamp : ℕ
  pub token_ids : List ℕ

abbrev pub default_checkpoint : Checkpoint
default_checkpoint = record { timestamp = 0; token_ids = [] }

pub record Votes : Type 0 where
  pub delegates : Dict Key
  pub checkpoints : Dict Checkpoint
  pub num_checkpoints : Dict ℕ
  pub nonces : Dict ℕ

-- `dao_voting_storage_init`
abbrev pub no_votes : Votes
no_votes = record {
  delegates = empty_dict;
  checkpoints = empty_dict;
  num_checkpoints = empty_dict;
  nonces = empty_dict;
}

module _ (env : Env) where
  open env use {key_to_bytes, blake2b_hex}

  unfoldable pub get_delegate : Key → Exec Votes Key
  unfolding key_to_str
  get_delegate a = do k ← key_to_str env a; gets (λ s. get_or (get s.delegates k) null_key)

  unfoldable pub set_delegate : Key → Key → Exec Votes (Unit {0})
  unfolding key_to_str
  set_delegate a d = do
    k ← key_to_str env a
    modify (λ s. record s { delegates = set s.delegates k d })

  unfoldable pub get_check_point_key : Key → ℕ → Text
  get_check_point_key a index = blake2b_hex (key_to_bytes a ++ le_bytes 8 index)

  abbrev pub get_check_point : Votes → Key → ℕ → Checkpoint
  get_check_point s a index =
      get_or (get s.checkpoints (get_check_point_key a index)) default_checkpoint

  abbrev pub set_check_point : Key → ℕ → Checkpoint → Exec Votes (Unit {0})
  set_check_point a index cp =
      modify (λ s. record s { checkpoints = set s.checkpoints (get_check_point_key a index) cp })

  unfoldable pub get_num_checkpoints : Key → Exec Votes ℕ
  unfolding key_to_str
  get_num_checkpoints a = do k ← key_to_str env a; gets (λ s. get_or (get s.num_checkpoints k) 0)

  unfoldable pub set_num_checkpoints : Key → ℕ → Exec Votes (Unit {0})
  unfolding key_to_str
  set_num_checkpoints a n = do
    k ← key_to_str env a
    modify (λ s. record s { num_checkpoints = set s.num_checkpoints k n })

  unfoldable pub get_nonces : Key → Exec Votes ℕ
  unfolding key_to_str
  get_nonces a = do k ← key_to_str env a; gets (λ s. get_or (get s.nonces k) 0)

  unfoldable pub set_nonces : Key → ℕ → Exec Votes (Unit {0})
  unfolding key_to_str
  set_nonces a n = do k ← key_to_str env a; modify (λ s. record s { nonces = set s.nonces k n })

  -- `_delegates`
  unfoldable pub delegates_of : Key → Exec Votes Key
  unfolding get_delegate is_null
  delegates_of delegator = do
    current ← get_delegate delegator
    pure (if is_null env current then delegator else current)

  -- `_find_what_checkpoint_to_write`
  unfoldable pub find_what_checkpoint_to_write : Key → Exec Votes ℕ
  unfolding get_num_checkpoints current_block_timestamp_seconds
  find_what_checkpoint_to_write a = do
    n ← get_num_checkpoints a
    gets (λ s.
        if ltb 0 n
          && (as_u64 (get_check_point s a (n - 1)).timestamp == current_block_timestamp_seconds env)
        then n - 1
        else n)
