-- ===== src/Calls/Unfailing.antt =====
-- The entry points of ve/src/vedata.rs that do not move locks never end with an `Err`.
use casper_ve_cep.Prelude.{ℕ, ◌≡◌, ◌≢◌, arith, inl, inr, Option-cases}
use casper_ve_cep.Errors.{Error}
use casper_ve_cep.Exec.{Exec, failed, narrow, Outcome-cases}
use casper_ve_cep.Host.{
  Env, Key, immediate_caller, get_immediate_caller_key, current_block_timestamp_seconds,
}
use casper_ve_cep.Escrow.Voting.{balance_of_at_nft, total_supply_at}
use casper_ve_cep.Votes.Delegation.{delegate_to}
use casper_ve_cep.Votes.Unfailing.{delegate_to-unfailing}
use casper_ve_cep.Contract.World.{World}
use casper_ve_cep.Contract.Locks.{check_point}
use casper_ve_cep.Contract.Roles.{
  only_team, only_voter, get_past_votes_index, get_past_votes, delegate, get_votes, detach, attach,
  abstain, voting, set_voter, set_art_proxy, set_team,
}
use casper_ve_cep.Calls.Readers.{
  get_past_total_supply, delegates, ve_total_supply, supply_at_block, balance_of_nft_at_block,
  balance_of_nft_at, balance_of_nft_now, locked_end, user_point_history_ts, get_last_user_slope,
}
use casper_ve_cep.Calls.Signatures.{Value}
use casper_ve_cep.Calls.Dispatch.{returning}

-- A wrapper fails only where its action fails.
pub returning-failed :
    {A : Type 0} (f : A → Value) (m : Exec World A) (w w' : World) (e : Error)
    → returning f m w ≡ failed e w'
    → (x : Error) × (w₁ : World) × (m w ≡ failed x w₁)
returning-failed f m w w' e h = elim (Outcome-cases (m w)) [
  | inl (a, w₁, run) ↦ absurd (ground arith)
  | inr (inl found) ↦ found
  | inr (inr (r, run)) ↦ absurd (ground arith)
]

module _ (env : Env) (w w' : World) (e : Error) where
  pub get_past_votes_index-unfailing :
      (holder : Key) (timestamp : ℕ) → get_past_votes_index env holder timestamp w ≢ failed e w'
  unfolding get_past_votes_index
  get_past_votes_index-unfailing holder timestamp h = ground arith

  pub get_past_votes-unfailing :
      (holder : Key) (timestamp : ℕ) → get_past_votes env holder timestamp w ≢ failed e w'
  unfolding get_past_votes get_past_votes_index
  get_past_votes-unfailing holder timestamp h = ground arith

  pub get_votes-unfailing : (holder : Key) → get_votes env holder w ≢ failed e w'
  unfolding get_votes
  get_votes-unfailing holder h = ground arith

  pub get_past_total_supply-unfailing : (t : ℕ) → get_past_total_supply t w ≢ failed e w'
  unfolding get_past_total_supply
  get_past_total_supply-unfailing t h = ground arith

  pub delegates-unfailing : (k : Key) → delegates k w ≢ failed e w'
  unfolding current_block_timestamp_seconds
  delegates-unfailing k h = ground arith

  pub ve_total_supply-unfailing : ve_total_supply env w ≢ failed e w'
  unfolding ve_total_supply
  ve_total_supply-unfailing h = ground arith

  pub supply_at_block-unfailing : (block : ℕ) → supply_at_block env block w ≢ failed e w'
  unfolding supply_at_block total_supply_at
  supply_at_block-unfailing block h = ground arith

  pub balance_of_nft_at_block-unfailing :
      (id block : ℕ) → balance_of_nft_at_block env id block w ≢ failed e w'
  unfolding balance_of_nft_at_block balance_of_at_nft narrow
  balance_of_nft_at_block-unfailing id block h = ground arith

  pub balance_of_nft_at-unfailing : (id t : ℕ) → balance_of_nft_at id t w ≢ failed e w'
  unfolding balance_of_nft_at narrow
  balance_of_nft_at-unfailing id t h = ground arith

  pub balance_of_nft_now-unfailing : (id : ℕ) → balance_of_nft_now env id w ≢ failed e w'
  unfolding balance_of_nft_now narrow
  balance_of_nft_now-unfailing id h = ground arith

  pub locked_end-unfailing : (id : ℕ) → locked_end id w ≢ failed e w'
  unfolding locked_end narrow
  locked_end-unfailing id h = ground arith

  pub user_point_history_ts-unfailing : (id x : ℕ) → user_point_history_ts id x w ≢ failed e w'
  unfolding user_point_history_ts narrow
  user_point_history_ts-unfailing id x h = ground arith

  pub get_last_user_slope-unfailing : (id : ℕ) → get_last_user_slope id w ≢ failed e w'
  unfolding get_last_user_slope narrow
  get_last_user_slope-unfailing id h = ground arith

  pub detach-unfailing : (id : ℕ) → detach env id w ≢ failed e w'
  unfolding detach only_voter narrow get_immediate_caller_key
  detach-unfailing id h = ground arith

  pub attach-unfailing : (id : ℕ) → attach env id w ≢ failed e w'
  unfolding attach only_voter narrow get_immediate_caller_key
  attach-unfailing id h = ground arith

  pub abstain-unfailing : (id : ℕ) → abstain env id w ≢ failed e w'
  unfolding abstain only_voter narrow get_immediate_caller_key
  abstain-unfailing id h = ground arith

  pub voting-unfailing : (id : ℕ) → voting env id w ≢ failed e w'
  unfolding voting only_voter narrow get_immediate_caller_key
  voting-unfailing id h = ground arith

  pub set_voter-unfailing : (k : Key) → set_voter env k w ≢ failed e w'
  unfolding set_voter only_voter get_immediate_caller_key
  set_voter-unfailing k h = ground arith

  pub set_art_proxy-unfailing : (k : Key) → set_art_proxy env k w ≢ failed e w'
  unfolding set_art_proxy only_team get_immediate_caller_key
  set_art_proxy-unfailing k h = ground arith

  pub set_team-unfailing : (k : Key) → set_team env k w ≢ failed e w'
  unfolding set_team only_team get_immediate_caller_key
  set_team-unfailing k h = ground arith

  pub check_point-unfailing : check_point env w ≢ failed e w'
  unfolding check_point
  check_point-unfailing h = ground arith

  pub delegate-unfailing : (k : Key) → delegate env k w ≢ failed e w'
  unfolding delegate get_immediate_caller_key
  delegate-unfailing k h = elim (Option-cases (immediate_caller env)) [
    | inl missing ↦ ground arith
    | inr (caller, called) ↦ elim (Outcome-cases (delegate_to env w.token caller k w.votes)) [
      | inl (u, v, run) ↦ ground arith
      | inr (inl (x, v, bad)) ↦ delegate_to-unfailing env w.token caller k w.votes v x bad
      | inr (inr (r, run)) ↦ ground arith
    ]
  ]
