-- ===== src/Votes/Latest.antt =====
-- The checkpoint that a move of votes leaves for a representative (ve/src/vedata.rs, section DAO
-- VOTING LOGIC).
use casper_ve_cep.Prelude.{
  ℕ, zero, suc, length-append, ◌+◌, ◌-◌, ◌^◌, ◌<◌, ◌≤◌, ◌≡◌, refl, Bool, false, some, List, [], ◌∷◌,
  ◌++◌, length, Text, get_or, text_eq_refl, arith, inl, inr,
}
use casper_ve_cep.Exec.{done, Outcome-cases, narrow}
use casper_ve_cep.Host.{Env, Key, get, key_label, key_to_str, current_block_timestamp_seconds}
use casper_ve_cep.Token.State.{Token}
use casper_ve_cep.Token.Cep47.{balance_of}
use casper_ve_cep.Token.WellFormed.{member}
use casper_ve_cep.Votes.State.{
  Votes, Checkpoint, get_check_point, get_check_point_key, get_num_checkpoints, set_num_checkpoints,
  find_what_checkpoint_to_write,
}
use casper_ve_cep.Votes.Delegation.{
  max_delegates, without, latest, rewrite_without, owned_tokens, token_count, join_all,
}
use casper_ve_cep.Votes.Undated.{IsUndated}

-- The representative `a` is filed under `label` and has `n` checkpoints, there is room for one more,
-- nothing stands in its place yet, and checkpoints have the timestamp 0.
pub record HasCheckpoints (env : Env) (a : Key) (n : ℕ) (s : Votes) : Type 0 where
  pub label : Text
  pub named : key_label env a ≡ some label
  pub counted : get_or (get s.num_checkpoints label) 0 ≡ n
  pub room : n + 1 < 2 ^ 64
  pub free : (get_check_point env s a n).token_ids ≡ []
  pub undated : IsUndated s

pub without-member : (id : ℕ) (ids : List ℕ) → member id (without id ids) ≡ false
unfolding without
without-member id [] = refl
without-member id (x ∷ ids) = ground (arith, without-member id ids)

owned_tokens-length :
    (env : Env) (token : Token) (owner : Key) (i count : ℕ) (s s' : Votes) (ids : List ℕ)
    → owned_tokens env token owner i count s ≡ done ids s'
    → length ids ≡ count
unfolding owned_tokens narrow
owned_tokens-length env token owner i zero s s' ids h = ground arith
owned_tokens-length env token owner i (suc count) s s' ids h =
    elim (Outcome-cases (owned_tokens env token owner (i + 1) count s)) [
      | inl (rest, s₁, e) ↦
          ground (arith, owned_tokens-length env token owner (i + 1) count s s₁ rest e)
      | inr (inl (x, t, bad)) ↦ absurd (ground arith)
      | inr (inr (f, bad)) ↦ absurd (ground arith)
    ]

module _ (env : Env) (a : Key) (n : ℕ) (s s' : Votes) (c : HasCheckpoints env a n s)
    (later : 0 < current_block_timestamp_seconds env) where
  -- Either side of `_move_token_delegates` that returns, at a block time of at least a second, has
  -- written a new latest checkpoint: the tokens of the one before without the moved token. So the
  -- new representative does not have the moved token either.
  pub rewrite_without-latest :
      (id : ℕ) (room : Checkpoint → Bool)
      → rewrite_without env a id room s ≡ done tt s'
      → (get_or (get s'.num_checkpoints c.label) 0 ≡ n + 1)
        × ((latest env s' a (n + 1)).token_ids ≡ without id (latest env s a n).token_ids)
        × (member id (latest env s' a (n + 1)).token_ids ≡ false)
  unfolding rewrite_without get_num_checkpoints key_to_str set_num_checkpoints
      find_what_checkpoint_to_write
  rewrite_without-latest id room h =
      let same : n + 1 - 1 ≡ n = omega arith in
      let tokens : (latest env s' a (n + 1)).token_ids ≡ without id (latest env s a n).token_ids =
        rw same (
          ground (
            arith,
            c.named,
            c.counted,
            c.room,
            c.free,
            c.undated (get_check_point_key env a (n - 1)),
            text_eq_refl (get_check_point_key env a n),
          )) in
      (
        ground (arith, c.named, c.counted, c.room, text_eq_refl c.label),
        tokens,
        rw tokens (without-member id (latest env s a n).token_ids),
      )

  -- When the second half of `_move_all_delegates` returns, at a block time of at least a second, it
  -- has written a new latest checkpoint for the new representative: the tokens of the one before, and
  -- behind them the owner's tokens in the order of their numbers, as many as the owner's balance; and
  -- they are at most `MAX_DELEGATES` together.
  pub join_all-latest :
      (token : Token) (owner : Key)
      → join_all env token owner a s ≡ done tt s'
      → (get_or (get s'.num_checkpoints c.label) 0 ≡ n + 1)
        × (count : ℕ) × (t : Token) × (balance_of env owner token ≡ done count t)
        × (ids : List ℕ) × (s₁ : Votes) × (owned_tokens env token owner 0 count s ≡ done ids s₁)
        × ((latest env s' a (n + 1)).token_ids ≡ (latest env s a n).token_ids ++ ids)
        × (length ids ≡ count)
        × (length (latest env s' a (n + 1)).token_ids ≤ max_delegates)
  unfolding join_all get_num_checkpoints key_to_str set_num_checkpoints
      find_what_checkpoint_to_write token_count narrow
  join_all-latest token owner h = elim (Outcome-cases (balance_of env owner token)) [
    | inr (inl (x, t, bad)) ↦ absurd (ground (arith, c.named, c.counted))
    | inr (inr (f, bad)) ↦ absurd (ground (arith, c.named, c.counted))
    | inl (count, t, counted) ↦ elim (Outcome-cases (owned_tokens env token owner 0 count s)) [
      | inr (inl (x, t', bad)) ↦ absurd (ground (arith, c.named, c.counted))
      | inr (inr (f, bad)) ↦ absurd (ground (arith, c.named, c.counted))
      | inl (ids, s₁, e) ↦
          let same : n + 1 - 1 ≡ n = omega arith in
          let undated = c.undated (get_check_point_key env a (n - 1)) in
          let tokens : (latest env s' a (n + 1)).token_ids ≡ (latest env s a n).token_ids ++ ids =
            rw same (
              ground (
                arith,
                c.named,
                c.counted,
                c.room,
                c.free,
                undated,
                text_eq_refl (get_check_point_key env a n),
              )) in
          let all : length ids ≡ count = owned_tokens-length env token owner 0 count s s₁ ids e in
          let few : length (latest env s a n).token_ids + count ≤ max_delegates =
            ground (arith, c.named, c.counted, undated) in
          (
            ground (arith, c.named, c.counted, c.room, text_eq_refl c.label),
            count,
            t,
            counted,
            ids,
            s₁,
            e,
            tokens,
            all,
            rw (tokens, length-append (latest env s a n).token_ids ids) (omega (arith, few, all)),
          )
    ]
  ]
