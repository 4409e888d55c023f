-- ===== src/Tests/Votes.antt =====
-- Checkpoints of votes at concrete storage.
use mathlib.Core.List.{zip}
use casper_ve_cep.Prelude.{
  ℕ, ◌≤◌, ◌≡◌, refl, true, false, [], ◌∷◌, ◌++◌, List, length, get_or, arith, text_eq, le_bytes,
}
use casper_ve_cep.Exec.{done, narrow}
use casper_ve_cep.Host.{
  Env, account, get, set, empty_dict, key_to_str, key_and_value_to_str,
  current_block_timestamp_seconds,
}
use casper_ve_cep.Token.Cep47.{balance_of, mint, mint_all, check_unminted}
use casper_ve_cep.Token.OwnedTokens.{get_balances, set_token}
use casper_ve_cep.Token.State.{Token, init, emit}
use casper_ve_cep.Token.WellFormed.{member}
use casper_ve_cep.Votes.State.{
  Votes, get_check_point_key, get_num_checkpoints, set_num_checkpoints,
  find_what_checkpoint_to_write,
}
use casper_ve_cep.Votes.Delegation.{
  max_delegates, without, latest, rewrite_without, join_all, owned_tokens, token_count,
}
use casper_ve_cep.Votes.Latest.{HasCheckpoints, rewrite_without-latest, join_all-latest}
use casper_ve_cep.Tests.Setting.{host, after, is_done-after, fresh}

abbrev env : Env
env = host 5 604800000000

-- Account 9 represents the tokens 3 and 4.
abbrev represented : Votes
represented = record {
  delegates = empty_dict;
  checkpoints =
      set empty_dict (get_check_point_key env (account 9) 0)
        (record { timestamp = 0; token_ids = 3 ∷ 4 ∷ [] });
  num_checkpoints = set empty_dict (0 ∷ 9 ∷ []) 1;
  nonces = empty_dict;
}

represented-HasCheckpoints : HasCheckpoints env (account 9) 1 represented
unfolding get_check_point_key text_eq le_bytes
represented-HasCheckpoints = record {
  label = 0 ∷ 9 ∷ [];
  named = refl;
  counted = refl;
  room = omega arith;
  free = refl;
  undated = λ k. ground arith;
}

-- Token 3 is moved.
abbrev moved : Votes
moved = after represented (rewrite_without env (account 9) 3 (λ cp. true) represented)

moved_done : rewrite_without env (account 9) 3 (λ cp. true) represented ≡ done tt moved
unfolding rewrite_without get_num_checkpoints set_num_checkpoints find_what_checkpoint_to_write
    key_to_str get_check_point_key text_eq le_bytes
moved_done =
    is_done-after represented (rewrite_without env (account 9) 3 (λ cp. true) represented) refl

rewrite_without-latest_example :
    (get_or (get moved.num_checkpoints represented-HasCheckpoints.label) 0 ≡ 2)
    × ((latest env moved (account 9) 2).token_ids
        ≡ without 3 (latest env represented (account 9) 1).token_ids)
    × (member 3 (latest env moved (account 9) 2).token_ids ≡ false)
unfolding current_block_timestamp_seconds
rewrite_without-latest_example =
    rewrite_without-latest env (account 9) 1 represented moved represented-HasCheckpoints
      (omega arith) 3 (λ cp. true) moved_done

-- Account 5 has the tokens 1 and 2, and delegates them to account 9.
abbrev two_tokens : Token
two_tokens = after fresh (mint env (account 5) (1 ∷ 2 ∷ []) ([] ∷ [] ∷ []) fresh)

abbrev given : Votes
given = after represented (join_all env two_tokens (account 5) (account 9) represented)

given_done : join_all env two_tokens (account 5) (account 9) represented ≡ done tt given
unfolding join_all get_num_checkpoints set_num_checkpoints find_what_checkpoint_to_write key_to_str
    get_check_point_key text_eq le_bytes owned_tokens token_count narrow get_balances mint mint_all
    check_unminted zip set_token init emit key_and_value_to_str
given_done =
    is_done-after represented (join_all env two_tokens (account 5) (account 9) represented) refl

join_all-latest_example :
    (get_or (get given.num_checkpoints represented-HasCheckpoints.label) 0 ≡ 2)
    × (count : ℕ) × (t : Token) × (balance_of env (account 5) two_tokens ≡ done count t)
    × (ids : List ℕ) × (s₁ : Votes) × (owned_tokens env two_tokens (account 5) 0 count represented
        ≡ done ids s₁)
    × ((latest env given (account 9) 2).token_ids
        ≡ (latest env represented (account 9) 1).token_ids ++ ids)
    × (length ids ≡ count)
    × (length (latest env given (account 9) 2).token_ids ≤ max_delegates)
unfolding current_block_timestamp_seconds
join_all-latest_example =
    join_all-latest env (account 9) 1 represented given represented-HasCheckpoints (omega arith)
      two_tokens (account 5) given_done
