-- ===== src/Votes/Unfailing.antt =====
-- Moving all votes of an address never ends with an `Err` (ve/src/vedata.rs).
use casper_ve_cep.Prelude.{
  ℕ, zero, suc, ◌+◌, ◌≢◌, [], ◌∷◌, List, arith, inl, inr, Option-cases, get_or,
}
use casper_ve_cep.Errors.{Error}
use casper_ve_cep.Exec.{failed, narrow, Outcome-cases}
use casper_ve_cep.Host.{Env, Key, get, set, null_key, key_label, key_to_str}
use casper_ve_cep.Token.State.{Token}
use casper_ve_cep.Token.Cep47.{owner_of}
use casper_ve_cep.Token.OwnedTokens.{get_balances}
use casper_ve_cep.Votes.State.{
  Votes, get_delegate, set_delegate, get_num_checkpoints, set_num_checkpoints,
  find_what_checkpoint_to_write,
}
use casper_ve_cep.Votes.Delegation.{
  latest, others_tokens, owned_tokens, token_count, leave_all, join_all, move_all_delegates,
  delegate_to,
}

module _ (env : Env) (token : Token) (owner : Key) (s : Votes) where
  others_tokens-unfailing :
      (ids : List ℕ) (s' : Votes) (e : Error) → others_tokens env token owner ids s ≢ failed e s'
  unfolding others_tokens
  others_tokens-unfailing [] s' e h = ground arith
  others_tokens-unfailing (id ∷ ids) s' e h = elim (Option-cases (owner_of env token id)) [
    | inl missing ↦ ground arith
    | inr (holder, found) ↦ elim (Outcome-cases (others_tokens env token owner ids s)) [
      | inl (rest, s₁, run) ↦ ground arith
      | inr (inl (x, s₁, bad)) ↦ others_tokens-unfailing ids s₁ x bad
      | inr (inr (r, run)) ↦ ground arith
    ]
  ]

  owned_tokens-unfailing :
      (i count : ℕ) (s' : Votes) (e : Error) → owned_tokens env token owner i count s ≢ failed e s'
  unfolding owned_tokens narrow
  owned_tokens-unfailing i zero s' e h = ground arith
  owned_tokens-unfailing i (suc count) s' e h =
      elim (Outcome-cases (owned_tokens env token owner (i + 1) count s)) [
        | inl (rest, s₁, run) ↦ ground arith
        | inr (inl (x, s₁, bad)) ↦ owned_tokens-unfailing (i + 1) count s₁ x bad
        | inr (inr (r, run)) ↦ ground arith
      ]

module _ (env : Env) (token : Token) (owner : Key) where
  leave_all-unfailing :
      (src : Key) (s s' : Votes) (e : Error) → leave_all env token owner src s ≢ failed e s'
  unfolding leave_all get_num_checkpoints key_to_str set_num_checkpoints
      find_what_checkpoint_to_write
  leave_all-unfailing src s s' e h = elim (Option-cases (key_label env src)) [
    | inl unnamed ↦ ground arith
    | inr (l, named) ↦
        let ids = (latest env s src (get_or (get s.num_checkpoints l) 0)).token_ids in
        elim (Outcome-cases (others_tokens env token owner ids s)) [
          | inl (rest, s₁, run) ↦ ground arith
          | inr (inl (x, s₁, bad)) ↦ others_tokens-unfailing env token owner s ids s₁ x bad
          | inr (inr (r, run)) ↦ ground arith
        ]
  ]

  join_all-unfailing :
      (dst : Key) (s s' : Votes) (e : Error) → join_all env token owner dst s ≢ failed e s'
  unfolding join_all get_num_checkpoints key_to_str set_num_checkpoints
      find_what_checkpoint_to_write token_count narrow get_balances
  join_all-unfailing dst s s' e h = elim (Option-cases (key_label env owner)) [
    | inl unnamed ↦ ground arith
    | inr (l, named) ↦
        let count = get_or (get token.owned.balances l) 0 in
        elim (Outcome-cases (owned_tokens env token owner 0 count s)) [
          | inl (rest, s₁, run) ↦ ground arith
          | inr (inl (x, s₁, bad)) ↦ owned_tokens-unfailing env token owner s 0 count s₁ x bad
          | inr (inr (r, run)) ↦ ground arith
        ]
  ]

  move_all_delegates-unfailing :
      (src dst : Key) (s s' : Votes) (e : Error)
      → move_all_delegates env token owner src dst s ≢ failed e s'
  unfolding move_all_delegates
  move_all_delegates-unfailing src dst s s' e h =
      elim (Outcome-cases (leave_all env token owner src s)) [
        | inr (inl (x, s₁, bad)) ↦ leave_all-unfailing src s s₁ x bad
        | inr (inr (r, run)) ↦ elim (Outcome-cases (join_all env token owner dst s)) [
          | inl (u, s₁, run') ↦ ground arith
          | inr (inl (x, s₁, bad)) ↦ join_all-unfailing dst s s₁ x bad
          | inr (inr (r', run')) ↦ ground arith
        ]
        | inl (u, s₁, run) ↦ elim (Outcome-cases (join_all env token owner dst s)) [
          | inr (inl (x, s₂, bad)) ↦ join_all-unfailing dst s s₂ x bad
          | inl (v, s₂, run') ↦ elim (Outcome-cases (join_all env token owner dst s₁)) [
            | inl (v', s₃, run'') ↦ ground arith
            | inr (inl (x, s₃, bad)) ↦ join_all-unfailing dst s₁ s₃ x bad
            | inr (inr (r', run'')) ↦ ground arith
          ]
          | inr (inr (r, run')) ↦ elim (Outcome-cases (join_all env token owner dst s₁)) [
            | inl (v', s₃, run'') ↦ ground arith
            | inr (inl (x, s₃, bad)) ↦ join_all-unfailing dst s₁ s₃ x bad
            | inr (inr (r', run'')) ↦ ground arith
          ]
        ]
      ]

  pub delegate_to-unfailing :
      (delegatee : Key) (s s' : Votes) (e : Error)
      → delegate_to env token owner delegatee s ≢ failed e s'
  unfolding delegate_to get_delegate set_delegate key_to_str
  delegate_to-unfailing delegatee s s' e h = elim (Option-cases (key_label env owner)) [
    | inl unnamed ↦ ground arith
    | inr (l, named) ↦
        let current = get_or (get s.delegates l) null_key in
        let s₀ = record s { delegates = set s.delegates l delegatee } in
        move_all_delegates-unfailing current delegatee s₀ s' e (ground arith)
  ]
