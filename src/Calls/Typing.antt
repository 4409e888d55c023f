-- ===== src/Calls/Typing.antt =====
-- The results of the wrappers against the tables of `get_entry_points`.
use casper_ve_cep.Prelude.{
  ◌≡◌, refl, ◌∙◌, ap, Bool, true, false, not, Option, none, some, text_eq, arith,
}
use casper_ve_cep.Exec.{done, narrow}
use casper_ve_cep.Host.{Env}
use casper_ve_cep.Contract.World.{World}
use casper_ve_cep.Calls.Signatures.{TokenCall, EscrowCall, Call, Value, ClType, cl_type}
use casper_ve_cep.Calls.Signatures.Tables.{EntryPoint, entry_points, declared, same_type}
use casper_ve_cep.Calls.Signatures.Returns.{call_name, returns}
use casper_ve_cep.Calls.Dispatch.{run, run_token, run_escrow}

-- Whether a type is the declared one.
unfoldable pub fits_result : ClType → Option EntryPoint → Bool
fits_result type none = false
fits_result type (some e) = same_type type e.returns

abbrev pub is_undeclared_result : Call → Bool
is_undeclared_result (Call.escrow (EscrowCall.get_votes x)) = true
is_undeclared_result (Call.escrow (EscrowCall.delegates x)) = true
is_undeclared_result (Call.token (TokenCall.token_meta x)) = true
is_undeclared_result _ = false

token_results :
    (c : TokenCall)
    → fits_result (returns (Call.token c)) (declared (call_name (Call.token c)) entry_points)
      ≡ not (is_undeclared_result (Call.token c))
unfolding fits_result declared entry_points same_type text_eq
token_results TokenCall.name = refl
token_results TokenCall.symbol = refl
token_results TokenCall.meta = refl
token_results TokenCall.total_supply = refl
token_results (TokenCall.balance_of x) = refl
token_results (TokenCall.owner_of x) = refl
token_results (TokenCall.token_meta x) = refl
token_results (TokenCall.update_token_meta x y) = refl
token_results (TokenCall.transfer x y) = refl
token_results (TokenCall.transfer_from x y z) = refl
token_results (TokenCall.approve x y) = refl
token_results (TokenCall.get_approved x y) = refl
token_results (TokenCall.get_token_by_index x y) = refl

escrow_results :
    (c : EscrowCall)
    → fits_result (returns (Call.escrow c)) (declared (call_name (Call.escrow c)) entry_points)
      ≡ not (is_undeclared_result (Call.escrow c))
unfolding fits_result declared entry_points same_type text_eq
escrow_results (EscrowCall.increase_amount_for x y) = refl
escrow_results (EscrowCall.get_past_votes_index x y) = refl
escrow_results (EscrowCall.get_past_votes x y) = refl
escrow_results (EscrowCall.get_past_total_supply x) = refl
escrow_results (EscrowCall.delegate x) = refl
escrow_results (EscrowCall.get_votes x) = refl
escrow_results (EscrowCall.delegates x) = refl
escrow_results (EscrowCall.merge x y) = refl
escrow_results (EscrowCall.detach x) = refl
escrow_results (EscrowCall.attach x) = refl
escrow_results (EscrowCall.abstain x) = refl
escrow_results (EscrowCall.voting x) = refl
escrow_results (EscrowCall.set_voter x) = refl
escrow_results (EscrowCall.total_supply_at_t x) = refl
escrow_results EscrowCall.ve_total_supply = refl
escrow_results (EscrowCall.total_supply_at x) = refl
escrow_results (EscrowCall.balance_of_at_nft x y) = refl
escrow_results (EscrowCall.balance_of_nft_at x y) = refl
escrow_results (EscrowCall.balance_of_nft x) = refl
escrow_results EscrowCall.withdraw = refl
escrow_results (EscrowCall.increase_unlock_time x y) = refl
escrow_results (EscrowCall.increase_amount x y) = refl
escrow_results (EscrowCall.create_lock_for x y z) = refl
escrow_results (EscrowCall.create_lock x y) = refl
escrow_results (EscrowCall.deposit_for x y) = refl
escrow_results EscrowCall.check_point = refl
escrow_results (EscrowCall.locked_end x) = refl
escrow_results (EscrowCall.user_point_history_ts x y) = refl
escrow_results (EscrowCall.get_last_user_slope x) = refl
escrow_results (EscrowCall.set_art_proxy x) = refl
escrow_results (EscrowCall.set_team x) = refl

module _ (env : Env) (w w' : World) (v : Value) where
  run_token-cl_type :
      (c : TokenCall) → run_token env c w ≡ done v w' → cl_type v ≡ returns (Call.token c)
  unfolding run_token narrow
  run_token-cl_type TokenCall.name h = ground arith
  run_token-cl_type TokenCall.symbol h = ground arith
  run_token-cl_type TokenCall.meta h = ground arith
  run_token-cl_type TokenCall.total_supply h = ground arith
  run_token-cl_type (TokenCall.balance_of x) h = ground arith
  run_token-cl_type (TokenCall.owner_of x) h = ground arith
  run_token-cl_type (TokenCall.token_meta x) h = ground arith
  run_token-cl_type (TokenCall.update_token_meta x y) h = ground arith
  run_token-cl_type (TokenCall.transfer x y) h = ground arith
  run_token-cl_type (TokenCall.transfer_from x y z) h = ground arith
  run_token-cl_type (TokenCall.approve x y) h = ground arith
  run_token-cl_type (TokenCall.get_approved x y) h = ground arith
  run_token-cl_type (TokenCall.get_token_by_index x y) h = ground arith

  run_escrow-cl_type :
      (c : EscrowCall) → run_escrow env c w ≡ done v w' → cl_type v ≡ returns (Call.escrow c)
  unfolding run_escrow
  run_escrow-cl_type (EscrowCall.increase_amount_for x y) h = ground arith
  run_escrow-cl_type (EscrowCall.get_past_votes_index x y) h = ground arith
  run_escrow-cl_type (EscrowCall.get_past_votes x y) h = ground arith
  run_escrow-cl_type (EscrowCall.get_past_total_supply x) h = ground arith
  run_escrow-cl_type (EscrowCall.delegate x) h = ground arith
  run_escrow-cl_type (EscrowCall.get_votes x) h = ground arith
  run_escrow-cl_type (EscrowCall.delegates x) h = ground arith
  run_escrow-cl_type (EscrowCall.merge x y) h = ground arith
  run_escrow-cl_type (EscrowCall.detach x) h = ground arith
  run_escrow-cl_type (EscrowCall.attach x) h = ground arith
  run_escrow-cl_type (EscrowCall.abstain x) h = ground arith
  run_escrow-cl_type (EscrowCall.voting x) h = ground arith
  run_escrow-cl_type (EscrowCall.set_voter x) h = ground arith
  run_escrow-cl_type (EscrowCall.total_supply_at_t x) h = ground arith
  run_escrow-cl_type EscrowCall.ve_total_supply h = ground arith
  run_escrow-cl_type (EscrowCall.total_supply_at x) h = ground arith
  run_escrow-cl_type (EscrowCall.balance_of_at_nft x y) h = ground arith
  run_escrow-cl_type (EscrowCall.balance_of_nft_at x y) h = ground arith
  run_escrow-cl_type (EscrowCall.balance_of_nft x) h = ground arith
  run_escrow-cl_type EscrowCall.withdraw h = ground arith
  run_escrow-cl_type (EscrowCall.increase_unlock_time x y) h = ground arith
  run_escrow-cl_type (EscrowCall.increase_amount x y) h = ground arith
  run_escrow-cl_type (EscrowCall.create_lock_for x y z) h = ground arith
  run_escrow-cl_type (EscrowCall.create_lock x y) h = ground arith
  run_escrow-cl_type (EscrowCall.deposit_for x y) h = ground arith
  run_escrow-cl_type EscrowCall.check_point h = ground arith
  run_escrow-cl_type (EscrowCall.locked_end x) h = ground arith
  run_escrow-cl_type (EscrowCall.user_point_history_ts x y) h = ground arith
  run_escrow-cl_type (EscrowCall.get_last_user_slope x) h = ground arith
  run_escrow-cl_type (EscrowCall.set_art_proxy x) h = ground arith
  run_escrow-cl_type (EscrowCall.set_team x) h = ground arith

  -- What a call returns has the declared type, except for `get_votes`, `delegates` and `token_meta`,
  -- whose results never have it.
  pub declared_results :
      (c : Call)
      → run env c w ≡ done v w'
      → fits_result (cl_type v) (declared (call_name c) entry_points) ≡ not (is_undeclared_result c)
  unfolding run
  declared_results (Call.token c) h =
      ap (λ t. fits_result t (declared (call_name (Call.token c)) entry_points))
        (run_token-cl_type c h)
      ∙ token_results c
  declared_results (Call.escrow c) h =
      ap (λ t. fits_result t (declared (call_name (Call.escrow c)) entry_points))
        (run_escrow-cl_type c h)
      ∙ escrow_results c
