-- ===== src/Calls/Attachments.antt =====
-- What `attach` and `detach` of ve/src/vedata.rs store, over histories of calls.
use casper_ve_cep.Prelude.{
  ℕ, ◌==◌, ◌≡◌, refl, ap, Bool-cases, false, none, some, [], ◌∷◌, inl, inr, ◌⊎◌, arith, Text,
  to_string, text_eq-to_string, add_u64, sub_u64,
}
use casper_ve_cep.Exec.{done, narrow, Outcome-cases}
use casper_ve_cep.Host.{Env, Key, Dict, get, set, get_immediate_caller_key}
use casper_ve_cep.Token.State.{Meta}
use casper_ve_cep.Escrow.State.{initialize, default_lock, current_block_number}
use casper_ve_cep.Escrow.CheckPoint.Frame.{Roles, roles-check_point}
use casper_ve_cep.Escrow.Voting.{balance_of_at_nft, total_supply_at}
use casper_ve_cep.Contract.World.{World, constructor}
use casper_ve_cep.Contract.Locks.{now, check_point}
use casper_ve_cep.Contract.Roles.{
  only_team, only_voter, get_past_votes_index, get_past_votes, get_votes, detach, attach, abstain,
  voting, set_voter, set_art_proxy, set_team,
}
use casper_ve_cep.Calls.Readers.{
  get_past_total_supply, ve_total_supply, supply_at_block, balance_of_nft_at_block,
  balance_of_nft_at, balance_of_nft_now, locked_end, user_point_history_ts, get_last_user_slope,
}
use casper_ve_cep.Calls.Signatures.{EscrowCall, Call, Value}
use casper_ve_cep.Calls.Dispatch.{History, at, run_escrow, run, execute}
use casper_ve_cep.Calls.TokenCalls.{names_any, run_token-rule}
use casper_ve_cep.Calls.Quiet.{is_active}
use casper_ve_cep.Calls.Roles.{active-roles}

-- Every number of attachments is its own token's id, up or down by one.
abbrev IsNextId : Dict ℕ → Type 0
IsNextId d = (id n : ℕ) → get d (to_string id) ≡ some n → (n ≡ add_u64 id 1) ⊎ (n ≡ sub_u64 id 1)

set-IsNextId :
    (d : Dict ℕ) (id n : ℕ)
    → ((n ≡ add_u64 id 1) ⊎ (n ≡ sub_u64 id 1))
    → IsNextId d
    → IsNextId (set d (to_string id) n)
set-IsNextId d id n near p i k e = elim (Bool-cases (id == i)) [
  | inl same ↦
      let found : k ≡ n = ground (arith, text_eq-to_string id i) in
      let here : id ≡ i = grind arith in rw found (rw (← here) near)
  | inr distinct ↦ p i k (ground (arith, text_eq-to_string id i))
]

module _ (env : Env) (w w' : World) where
  quiet-IsNextId :
      (c : EscrowCall) {v : Value}
      → is_active c ≡ false
      → IsNextId w.escrow.attachments
      → run_escrow env c w ≡ done v w'
      → IsNextId w'.escrow.attachments
  unfolding run_escrow get_past_votes_index get_past_votes get_votes get_past_total_supply
      ve_total_supply supply_at_block total_supply_at balance_of_nft_at_block balance_of_at_nft
      narrow balance_of_nft_at balance_of_nft_now locked_end user_point_history_ts
      get_last_user_slope abstain voting set_voter set_art_proxy set_team only_team only_voter
      get_immediate_caller_key check_point attach detach
  quiet-IsNextId (EscrowCall.attach id) q p h =
      let same : w'.escrow.attachments ≡ set w.escrow.attachments (to_string id) (add_u64 id 1) =
        ground arith in
      rw same (set-IsNextId w.escrow.attachments id (add_u64 id 1) (inl refl) p)
  quiet-IsNextId (EscrowCall.detach id) q p h =
      let same : w'.escrow.attachments ≡ set w.escrow.attachments (to_string id) (sub_u64 id 1) =
        ground arith in
      rw same (set-IsNextId w.escrow.attachments id (sub_u64 id 1) (inr refl) p)
  quiet-IsNextId c q p h =
      let kept =
        roles-check_point (now env) current_block_number 0 default_lock default_lock w.escrow in
      let same : w'.escrow.attachments ≡ w.escrow.attachments = ground (arith, kept) in rw same p

  run-IsNextId :
      (c : Call) {v : Value}
      → IsNextId w.escrow.attachments
      → run env c w ≡ done v w'
      → IsNextId w'.escrow.attachments
  unfolding run
  run-IsNextId (Call.escrow c) p h = elim (Bool-cases (is_active c)) [
    | inl active ↦
        let same = ap (λ (r : Roles). r.attachments) (active-roles env w w' c active h) in rw same p
    | inr quiet ↦ quiet-IsNextId c quiet p h
  ]
  run-IsNextId (Call.token c) p h =
      let (t, same, still, voted) =
        run_token-rule env {Named = λ k. Unit {0}} (λ s s'. Unit {0}) (λ s. tt) (λ id m s s' e. tt)
          (λ k r ids s s' p' q e. tt) (λ spender ids s s' e. tt) (λ k e. tt) c w w' (names_any c)
          h in
      rw same p

execute-IsNextId :
    (env : Env) (h : History) (w : World)
    → IsNextId w.escrow.attachments
    → IsNextId (execute env h w).escrow.attachments
unfolding execute
execute-IsNextId env [] w p = p
execute-IsNextId env ((c, call) ∷ h) w p = elim (Outcome-cases (run (at env c) call w)) [
  | inl (v, w', e) ↦
      rw (execute, e) (execute-IsNextId env h w' (run-IsNextId (at env c) w w' call p e))
  | inr (inl (x, w', e)) ↦ rw (execute, e) (execute-IsNextId env h w p)
  | inr (inr (r, e)) ↦ rw (execute, e) (execute-IsNextId env h w p)
]

-- From the installation on, after any history of calls by anyone: where a number of attachments is
-- stored for a token, it is the token's id plus one or minus one, wrapped to a `u64`, however often
-- the token has been attached or detached.
pub attachments_unrelated :
    (env : Env) (name symbol : Text) (meta : Meta) (token_contract art_proxy : Key)
    (before installed : World)
    → constructor env name symbol meta token_contract art_proxy before ≡ done tt installed
    → (h : History) (id n : ℕ)
    → get (execute env h installed).escrow.attachments (to_string id) ≡ some n
    → (n ≡ add_u64 id 1) ⊎ (n ≡ sub_u64 id 1)
unfolding constructor get_immediate_caller_key initialize
attachments_unrelated env name symbol meta token_contract art_proxy before installed start h =
    let fresh : (k : Text) → get installed.escrow.attachments k ≡ none = λ k. ground arith in
    execute-IsNextId env h installed (λ id n e. let new = fresh (to_string id) in absurd (cc))
