-- ===== src/Contract/Roles.antt =====
-- The entry points of the team and of the voter, and of delegation and votes (ve/src/vedata.rs).
use casper_ve_cep.Prelude.{
  ℕ, zero, suc, ◌-◌, ◌/◌, Bool, true, false, List, [], ◌∷◌, ltb, leb, ◌==◌, if◌then◌else◌, add_u64,
  sub_u64, add_u128, to_string,
}
use casper_ve_cep.Errors.{not_team, not_voter}
use casper_ve_cep.Exec.{Exec, ◌>>=◌, ◌>>◌, modify, gets, require, narrow}
use casper_ve_cep.Host.{
  Env, Key, key_eq, set, get_immediate_caller_key, current_block_timestamp_seconds,
}
use casper_ve_cep.Escrow.State.{Escrow}
use casper_ve_cep.Escrow.Voting.{balance_of_nft}
use casper_ve_cep.Votes.State.{get_check_point, get_num_checkpoints}
use casper_ve_cep.Votes.Delegation.{delegate_to}
use casper_ve_cep.Contract.World.{World, on_escrow, on_votes}

-- The loop of `_get_past_votes_index`: `stamp` is the timestamp of the checkpoint with a given number.
-- The fuel bounds `upper - lower`, which falls in every round.
unfoldable pub past_votes_loop : (ℕ → ℕ) → ℕ → ℕ → ℕ → ℕ → ℕ
past_votes_loop stamp timestamp zero lower upper = lower
past_votes_loop stamp timestamp (suc fuel) lower upper =
    let center = upper - (upper - lower) / 2 in
    elim (ltb lower upper) [
      | false ↦ lower
      | true ↦ elim (stamp center == timestamp) [
        | true ↦ center
        | false ↦ elim (ltb (stamp center) timestamp) [
          | true ↦ past_votes_loop stamp timestamp fuel center upper
          | false ↦ past_votes_loop stamp timestamp fuel lower (upper - 1)
        ]
      ]
    ]

-- `_get_past_votes_index` for an account with `n` checkpoints.
unfoldable pub past_votes_index : (ℕ → ℕ) → ℕ → ℕ → ℕ
unfolding past_votes_loop
past_votes_index stamp timestamp n =
    if n == 0
    then 0
    else if leb (stamp (n - 1)) timestamp
    then n - 1
    else if ltb timestamp (stamp 0)
    then 0
    else past_votes_loop stamp timestamp n 0 (n - 1)

-- The sum of the loops of `get_votes` and `get_past_votes`.
unfoldable pub sum_balances : Escrow → ℕ → ℕ → List ℕ → ℕ
sum_balances e t acc [] = acc
sum_balances e t acc (id ∷ ids) = sum_balances e t (add_u128 acc (balance_of_nft e id t)) ids

module _ (env : Env) where
  -- What `set_team`, `set_art_proxy` and `only_voter` require.
  unfoldable pub only_team : Exec World (Unit {0})
  unfolding get_immediate_caller_key
  only_team = do
    team ← gets (λ w. w.escrow.team)
    caller ← get_immediate_caller_key env
    require (key_eq caller team) not_team

  unfoldable pub only_voter : Exec World (Unit {0})
  unfolding get_immediate_caller_key
  only_voter = do
    caller ← get_immediate_caller_key env
    voter ← gets (λ w. w.escrow.voter)
    require (key_eq caller voter) not_voter

  unfoldable pub set_team : Key → Exec World (Unit {0})
  unfolding only_team
  set_team new_team = do only_team; on_escrow (modify (λ e. record e { team = new_team }))

  unfoldable pub set_art_proxy : Key → Exec World (Unit {0})
  unfolding only_team
  set_art_proxy new_art_proxy = do
    only_team
    on_escrow (modify (λ e. record e { art_proxy_contract = new_art_proxy }))

  unfoldable pub set_voter : Key → Exec World (Unit {0})
  unfolding only_voter
  set_voter new_voter = do only_voter; on_escrow (modify (λ e. record e { voter = new_voter }))

  abbrev pub put_voted : ℕ → Bool → Exec World (Unit {0})
  put_voted token_id b =
      on_escrow (modify (λ e. record e { voted = set e.voted (to_string token_id) b }))

  abbrev pub put_attachments : ℕ → ℕ → Exec World (Unit {0})
  put_attachments token_id n =
      on_escrow (modify (λ e. record e { attachments = set e.attachments (to_string token_id) n }))

  unfoldable pub voting : ℕ → Exec World (Unit {0})
  unfolding only_voter narrow
  voting token_id_arg = do token_id ← narrow 64 token_id_arg; only_voter; put_voted token_id true

  unfoldable pub abstain : ℕ → Exec World (Unit {0})
  unfolding only_voter narrow
  abstain token_id_arg = do token_id ← narrow 64 token_id_arg; only_voter; put_voted token_id false

  unfoldable pub attach : ℕ → Exec World (Unit {0})
  unfolding only_voter narrow
  attach token_id_arg = do
    token_id ← narrow 64 token_id_arg
    only_voter
    put_attachments token_id (add_u64 token_id 1)

  unfoldable pub detach : ℕ → Exec World (Unit {0})
  unfolding only_voter narrow
  detach token_id_arg = do
    token_id ← narrow 64 token_id_arg
    only_voter
    put_attachments token_id (sub_u64 token_id 1)

  unfoldable pub delegate : Key → Exec World (Unit {0})
  unfolding get_immediate_caller_key
  delegate delegatee = do
    caller ← get_immediate_caller_key env
    token ← gets (λ w. w.token)
    on_votes (delegate_to env token caller delegatee)

  unfoldable pub get_votes : Key → Exec World ℕ
  unfolding get_num_checkpoints sum_balances
  get_votes holder = do
    n_checkpoints ← on_votes (get_num_checkpoints env holder)
    gets (λ w.
        if n_checkpoints == 0
        then 0
        else sum_balances w.escrow (current_block_timestamp_seconds env) 0
            (get_check_point env w.votes holder n_checkpoints).token_ids)

  unfoldable pub get_past_votes_index : Key → ℕ → Exec World ℕ
  unfolding get_num_checkpoints past_votes_index
  get_past_votes_index holder timestamp = do
    n ← on_votes (get_num_checkpoints env holder)
    gets (λ w. past_votes_index (λ i. (get_check_point env w.votes holder i).timestamp) timestamp n)

  unfoldable pub get_past_votes : Key → ℕ → Exec World ℕ
  unfolding get_past_votes_index sum_balances
  get_past_votes holder timestamp = do
    check_index ← get_past_votes_index holder timestamp
    gets (λ w.
        sum_balances w.escrow timestamp 0
          (get_check_point env w.votes holder check_index).token_ids)
