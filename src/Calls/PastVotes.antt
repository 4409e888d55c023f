-- ===== src/Calls/PastVotes.antt =====
-- What `_get_past_votes_index` and `_find_what_checkpoint_to_write` of ve/src/vedata.rs find after any
-- history of calls.
use casper_ve_cep.Prelude.{ℕ, ◌-◌, ◌==◌, if◌then◌else◌, ◌≡◌, inl, inr, [], ◌∷◌, arith, Text}
use casper_ve_cep.Exec.{done, Outcome-cases}
use casper_ve_cep.Host.{Env, Key, get_immediate_caller_key, current_block_timestamp_seconds}
use casper_ve_cep.Token.State.{Meta}
use casper_ve_cep.Votes.State.{
  get_check_point, get_check_point_key, get_num_checkpoints, find_what_checkpoint_to_write,
}
use casper_ve_cep.Votes.Undated.{IsUndated}
use casper_ve_cep.Contract.World.{World, constructor}
use casper_ve_cep.Contract.Roles.{past_votes_index, get_past_votes_index}
use casper_ve_cep.Calls.Dispatch.{Context, History, at, run, execute}
use casper_ve_cep.Calls.Undated.{run-IsUndated}

execute-IsUndated :
    (env : Env) (h : History) (w : World) → IsUndated w.votes → IsUndated (execute env h w).votes
unfolding execute
execute-IsUndated env [] w u = u
execute-IsUndated env ((c, call) ∷ h) w u = elim (Outcome-cases (run (at env c) call w)) [
  | inl (v, w', e) ↦
      rw (execute, e) (execute-IsUndated env h w' (run-IsUndated (at env c) w w' call u e))
  | inr (inl (x, w', e)) ↦ rw (execute, e) (execute-IsUndated env h w u)
  | inr (inr (r, e)) ↦ rw (execute, e) (execute-IsUndated env h w u)
]

past_votes_index-zero :
    (stamp : ℕ → ℕ) (timestamp n : ℕ)
    → stamp (n - 1) ≡ 0
    → past_votes_index stamp timestamp n ≡ n - 1
unfolding past_votes_index
past_votes_index-zero stamp timestamp n e = ground arith

module _ (env : Env) (holder : Key) (n : ℕ) (w : World) (u : IsUndated w.votes) where
  index-undated :
      (timestamp : ℕ)
      → get_num_checkpoints env holder w.votes ≡ done n w.votes
      → get_past_votes_index env holder timestamp w ≡ done (n - 1) w
  unfolding get_past_votes_index
  index-undated timestamp e = ground (
    arith,
    past_votes_index-zero (λ i. (get_check_point env w.votes holder i).timestamp) timestamp n
        (u (get_check_point_key env holder (n - 1))),
  )

  next-undated :
      get_num_checkpoints env holder w.votes ≡ done n w.votes
      → find_what_checkpoint_to_write env holder w.votes
        ≡ done (if current_block_timestamp_seconds env == 0 then n - 1 else n) w.votes
  unfolding find_what_checkpoint_to_write
  next-undated e = ground (arith, u (get_check_point_key env holder (n - 1)))

-- From the installation on, after any history of calls by anyone at any times, for an account with
-- `n` checkpoints: whatever past time is asked for, `_get_past_votes_index` finds the last
-- checkpoint, `n - 1`, or 0 where there is none; and `_find_what_checkpoint_to_write` names the new
-- checkpoint `n`, even in the block that wrote the last one, but names `n - 1` at a block time of 0
-- seconds.
pub past_votes_undated :
    (env : Env) (name symbol : Text) (meta : Meta) (token_contract art_proxy : Key)
    (before installed : World)
    → constructor env name symbol meta token_contract art_proxy before ≡ done tt installed
    → (h : History) (c : Context) (holder : Key) (timestamp n : ℕ)
    → get_num_checkpoints (at env c) holder (execute env h installed).votes
      ≡ done n (execute env h installed).votes
    → (get_past_votes_index (at env c) holder timestamp (execute env h installed)
        ≡ done (n - 1) (execute env h installed))
      × (find_what_checkpoint_to_write (at env c) holder (execute env h installed).votes
          ≡ done
              (if current_block_timestamp_seconds (at env c) == 0 then n - 1 else n)
              (execute env h installed).votes)
unfolding constructor get_immediate_caller_key
past_votes_undated env name symbol meta token_contract art_proxy before installed start h c holder
      timestamp n e =
    let fresh : IsUndated installed.votes = λ k. ground arith in
    let u = execute-IsUndated env h installed fresh in
    (
      index-undated (at env c) holder n (execute env h installed) u timestamp e,
      next-undated (at env c) holder n (execute env h installed) u e,
    )
