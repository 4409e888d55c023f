-- ===== src/Calls/Quiet.antt =====
-- The calls that touch neither locks, nor the supply, nor the token, nor votes, nor the record of
-- payments, and what they leave of the team's and the voter's.
use casper_ve_cep.Prelude.{ℕ, ℤ, ◌≡◌, Bool, true, false, arith, inl, inr}
use casper_ve_cep.Exec.{Exec, done, narrow, Outcome-cases}
use casper_ve_cep.Host.{Env, Key, get_immediate_caller_key, current_block_timestamp_seconds}
use casper_ve_cep.Escrow.State.{default_lock, current_block_number}
use casper_ve_cep.Escrow.CheckPoint.Frame.{
  locked-check_point, ve_supply-check_point, token_contract-check_point, is_locked-check_point,
  roles-check_point,
}
use casper_ve_cep.Escrow.Voting.{balance_of_at_nft, total_supply_at}
use casper_ve_cep.Contract.World.{World}
use casper_ve_cep.Contract.Locks.{now, check_point}
use casper_ve_cep.Contract.Roles.{
  only_team, only_voter, get_past_votes_index, get_past_votes, get_votes, detach, attach, abstain,
  voting, set_voter, set_art_proxy, set_team,
}
use casper_ve_cep.Contract.Access.{called_by, TeamKept, VoterKept}
use casper_ve_cep.Calls.Readers.{
  get_past_total_supply, delegates, ve_total_supply, supply_at_block, balance_of_nft_at_block,
  balance_of_nft_at, balance_of_nft_now, locked_end, user_point_history_ts, get_last_user_slope,
}
use casper_ve_cep.Calls.Signatures.{EscrowCall, Value, key_value}
use casper_ve_cep.Calls.Dispatch.{returning, run_escrow}

-- The calls that deposit, and `merge`.
abbrev pub moves_locks : EscrowCall → Bool
moves_locks (EscrowCall.increase_amount_for x y) = true
moves_locks (EscrowCall.merge x y) = true
moves_locks (EscrowCall.increase_unlock_time x y) = true
moves_locks (EscrowCall.increase_amount x y) = true
moves_locks (EscrowCall.create_lock_for x y z) = true
moves_locks (EscrowCall.create_lock x y) = true
moves_locks (EscrowCall.deposit_for x y) = true
moves_locks _ = false

-- The calls that change locks or votes.
abbrev pub is_active : EscrowCall → Bool
is_active (EscrowCall.delegate delegatee) = true
is_active c = moves_locks c

pub record Quiet (env : Env) (w w' : World) : Type 0 where
  pub token : w'.token ≡ w.token
  pub locked : w'.escrow.locked ≡ w.escrow.locked
  pub supply : w'.escrow.ve_supply ≡ w.escrow.ve_supply
  pub guard : w'.escrow.is_locked ≡ w.escrow.is_locked
  pub contract : w'.escrow.token_contract ≡ w.escrow.token_contract
  pub paid : w'.transfers ≡ w.transfers
  pub votes : w'.votes ≡ w.votes
  pub team : called_by env w.escrow.team ≡ false → TeamKept w.escrow w'.escrow
  pub voter : called_by env w.escrow.voter ≡ false → VoterKept w.escrow w'.escrow

-- A wrapper that returns has run its action to the end.
pub returning-done :
    {A : Type 0} (f : A → Value) (m : Exec World A) (w : World) {v : Value} {w' : World}
    → returning f m w ≡ done v w'
    → (a : A) × (m w ≡ done a w')
returning-done f m w h = elim (Outcome-cases (m w)) [
  | inl (a, w₁, e) ↦ (a, ground arith)
  | inr (inl (e, w₁, bad)) ↦ absurd (ground arith)
  | inr (inr (r, bad)) ↦ absurd (ground arith)
]

module _ (env : Env) (w w' : World) where
  get_past_votes_index-Quiet :
      (holder : Key) (timestamp : ℕ) (a : ℕ)
      → get_past_votes_index env holder timestamp w ≡ done a w'
      → Quiet env w w'
  unfolding get_past_votes_index
  get_past_votes_index-Quiet holder timestamp a h = ground arith

  get_past_votes-Quiet :
      (holder : Key) (timestamp : ℕ) (a : ℕ)
      → get_past_votes env holder timestamp w ≡ done a w'
      → Quiet env w w'
  unfolding get_past_votes get_past_votes_index
  get_past_votes-Quiet holder timestamp a h = ground arith

  get_votes-Quiet : (holder : Key) (a : ℕ) → get_votes env holder w ≡ done a w' → Quiet env w w'
  unfolding get_votes
  get_votes-Quiet holder a h = ground arith

  get_past_total_supply-Quiet :
      (t : ℕ) (a : ℕ) → get_past_total_supply t w ≡ done a w' → Quiet env w w'
  unfolding get_past_total_supply
  get_past_total_supply-Quiet t a h = ground arith

  delegates-Quiet : (k : Key) (a : Key) → delegates k w ≡ done a w' → Quiet env w w'
  unfolding current_block_timestamp_seconds
  delegates-Quiet k a h = ground arith

  ve_total_supply-Quiet : (a : ℕ) → ve_total_supply env w ≡ done a w' → Quiet env w w'
  unfolding ve_total_supply
  ve_total_supply-Quiet a h = ground arith

  supply_at_block-Quiet :
      (block : ℕ) (a : ℕ) → supply_at_block env block w ≡ done a w' → Quiet env w w'
  unfolding supply_at_block total_supply_at
  supply_at_block-Quiet block a h = ground arith

  balance_of_nft_at_block-Quiet :
      (id block : ℕ) (a : ℕ) → balance_of_nft_at_block env id block w ≡ done a w' → Quiet env w w'
  unfolding balance_of_nft_at_block balance_of_at_nft narrow
  balance_of_nft_at_block-Quiet id block a h = ground arith

  balance_of_nft_at-Quiet :
      (id t : ℕ) (a : ℕ) → balance_of_nft_at id t w ≡ done a w' → Quiet env w w'
  unfolding balance_of_nft_at narrow
  balance_of_nft_at-Quiet id t a h = ground arith

  balance_of_nft_now-Quiet :
      (id : ℕ) (a : ℕ) → balance_of_nft_now env id w ≡ done a w' → Quiet env w w'
  unfolding balance_of_nft_now narrow
  balance_of_nft_now-Quiet id a h = ground arith

  locked_end-Quiet : (id : ℕ) (a : ℕ) → locked_end id w ≡ done a w' → Quiet env w w'
  unfolding locked_end narrow
  locked_end-Quiet id a h = ground arith

  user_point_history_ts-Quiet :
      (id x : ℕ) (a : ℕ) → user_point_history_ts id x w ≡ done a w' → Quiet env w w'
  unfolding user_point_history_ts narrow
  user_point_history_ts-Quiet id x a h = ground arith

  get_last_user_slope-Quiet :
      (id : ℕ) (a : ℤ) → get_last_user_slope id w ≡ done a w' → Quiet env w w'
  unfolding get_last_user_slope narrow
  get_last_user_slope-Quiet id a h = ground arith

  detach-Quiet : (id : ℕ) (a : Unit {0}) → detach env id w ≡ done a w' → Quiet env w w'
  unfolding detach only_voter narrow get_immediate_caller_key
  detach-Quiet id a h = ground arith

  attach-Quiet : (id : ℕ) (a : Unit {0}) → attach env id w ≡ done a w' → Quiet env w w'
  unfolding attach only_voter narrow get_immediate_caller_key
  attach-Quiet id a h = ground arith

  abstain-Quiet : (id : ℕ) (a : Unit {0}) → abstain env id w ≡ done a w' → Quiet env w w'
  unfolding abstain only_voter narrow get_immediate_caller_key
  abstain-Quiet id a h = ground arith

  voting-Quiet : (id : ℕ) (a : Unit {0}) → voting env id w ≡ done a w' → Quiet env w w'
  unfolding voting only_voter narrow get_immediate_caller_key
  voting-Quiet id a h = ground arith

  set_voter-Quiet : (k : Key) (a : Unit {0}) → set_voter env k w ≡ done a w' → Quiet env w w'
  unfolding set_voter only_voter get_immediate_caller_key
  set_voter-Quiet k a h = ground arith

  set_art_proxy-Quiet :
      (k : Key) (a : Unit {0}) → set_art_proxy env k w ≡ done a w' → Quiet env w w'
  unfolding set_art_proxy only_team get_immediate_caller_key
  set_art_proxy-Quiet k a h = ground arith

  set_team-Quiet : (k : Key) (a : Unit {0}) → set_team env k w ≡ done a w' → Quiet env w w'
  unfolding set_team only_team get_immediate_caller_key
  set_team-Quiet k a h = ground arith

  check_point-Quiet : (a : Unit {0}) → check_point env w ≡ done a w' → Quiet env w w'
  unfolding check_point
  check_point-Quiet a h = ground (
    arith,
    locked-check_point (now env) current_block_number 0 default_lock default_lock w.escrow,
    ve_supply-check_point (now env) current_block_number 0 default_lock default_lock w.escrow,
    token_contract-check_point (now env) current_block_number 0 default_lock default_lock w.escrow,
    is_locked-check_point (now env) current_block_number 0 default_lock default_lock w.escrow,
    roles-check_point (now env) current_block_number 0 default_lock default_lock w.escrow,
  )

  -- A call of the escrow that does not deposit, merge or delegate leaves all that alone.
  pub run_escrow-Quiet :
      (c : EscrowCall) {v : Value}
      → is_active c ≡ false
      → run_escrow env c w ≡ done v w'
      → Quiet env w w'
  unfolding run_escrow
  run_escrow-Quiet (EscrowCall.increase_amount_for x y) q h = cc
  run_escrow-Quiet (EscrowCall.get_past_votes_index x y) q h =
      let (a, e) = returning-done _ (get_past_votes_index env x y) w h in
      get_past_votes_index-Quiet x y a e
  run_escrow-Quiet (EscrowCall.get_past_votes x y) q h =
      let (a, e) = returning-done _ (get_past_votes env x y) w h in get_past_votes-Quiet x y a e
  run_escrow-Quiet (EscrowCall.get_past_total_supply x) q h =
      let (a, e) = returning-done _ (get_past_total_supply x) w h in
      get_past_total_supply-Quiet x a e
  run_escrow-Quiet (EscrowCall.delegate x) q h = cc
  run_escrow-Quiet (EscrowCall.get_votes x) q h =
      let (a, e) = returning-done _ (get_votes env x) w h in get_votes-Quiet x a e
  run_escrow-Quiet (EscrowCall.delegates x) q h =
      let (a, e) = returning-done key_value (delegates x) w h in delegates-Quiet x a e
  run_escrow-Quiet (EscrowCall.merge x y) q h = cc
  run_escrow-Quiet (EscrowCall.detach x) q h =
      let (a, e) = returning-done _ (detach env x) w h in detach-Quiet x a e
  run_escrow-Quiet (EscrowCall.attach x) q h =
      let (a, e) = returning-done _ (attach env x) w h in attach-Quiet x a e
  run_escrow-Quiet (EscrowCall.abstain x) q h =
      let (a, e) = returning-done _ (abstain env x) w h in abstain-Quiet x a e
  run_escrow-Quiet (EscrowCall.voting x) q h =
      let (a, e) = returning-done _ (voting env x) w h in voting-Quiet x a e
  run_escrow-Quiet (EscrowCall.set_voter x) q h =
      let (a, e) = returning-done _ (set_voter env x) w h in set_voter-Quiet x a e
  run_escrow-Quiet (EscrowCall.total_supply_at_t x) q h = ground arith
  run_escrow-Quiet EscrowCall.ve_total_supply q h =
      let (a, e) = returning-done _ (ve_total_supply env) w h in ve_total_supply-Quiet a e
  run_escrow-Quiet (EscrowCall.total_supply_at x) q h =
      let (a, e) = returning-done _ (supply_at_block env x) w h in supply_at_block-Quiet x a e
  run_escrow-Quiet (EscrowCall.balance_of_at_nft x y) q h =
      let (a, e) = returning-done _ (balance_of_nft_at_block env x y) w h in
      balance_of_nft_at_block-Quiet x y a e
  run_escrow-Quiet (EscrowCall.balance_of_nft_at x y) q h =
      let (a, e) = returning-done _ (balance_of_nft_at x y) w h in balance_of_nft_at-Quiet x y a e
  run_escrow-Quiet (EscrowCall.balance_of_nft x) q h =
      let (a, e) = returning-done _ (balance_of_nft_now env x) w h in balance_of_nft_now-Quiet x a e
  run_escrow-Quiet EscrowCall.withdraw q h = ground arith
  run_escrow-Quiet (EscrowCall.increase_unlock_time x y) q h = cc
  run_escrow-Quiet (EscrowCall.increase_amount x y) q h = cc
  run_escrow-Quiet (EscrowCall.create_lock_for x y z) q h = cc
  run_escrow-Quiet (EscrowCall.create_lock x y) q h = cc
  run_escrow-Quiet (EscrowCall.deposit_for x y) q h = cc
  run_escrow-Quiet EscrowCall.check_point q h =
      let (a, e) = returning-done _ (check_point env) w h in check_point-Quiet a e
  run_escrow-Quiet (EscrowCall.locked_end x) q h =
      let (a, e) = returning-done _ (locked_end x) w h in locked_end-Quiet x a e
  run_escrow-Quiet (EscrowCall.user_point_history_ts x y) q h =
      let (a, e) = returning-done _ (user_point_history_ts x y) w h in
      user_point_history_ts-Quiet x y a e
  run_escrow-Quiet (EscrowCall.get_last_user_slope x) q h =
      let (a, e) = returning-done _ (get_last_user_slope x) w h in get_last_user_slope-Quiet x a e
  run_escrow-Quiet (EscrowCall.set_art_proxy x) q h =
      let (a, e) = returning-done _ (set_art_proxy env x) w h in set_art_proxy-Quiet x a e
  run_escrow-Quiet (EscrowCall.set_team x) q h =
      let (a, e) = returning-done _ (set_team env x) w h in set_team-Quiet x a e
