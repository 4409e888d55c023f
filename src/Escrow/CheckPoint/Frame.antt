-- ===== src/Escrow/CheckPoint/Frame.antt =====
-- What `_check_point` leaves alone.
use casper_ve_cep.Prelude.{ℕ, Bool, ◌≡◌, arith}
use casper_ve_cep.Host.{Key, Dict}
use casper_ve_cep.Escrow.State.{Escrow, LockedBalance}
use casper_ve_cep.Escrow.CheckPoint.{
  check_point_internal, check_point_token, record_user, reschedule_old, reschedule_new,
}

-- The part of the escrow that is the team's and the voter's.
pub record Roles : Type 0 where
  pub team : Key
  pub art_proxy_contract : Key
  pub voter : Key
  pub voted : Dict Bool
  pub attachments : Dict ℕ

abbrev pub roles_of : Escrow → Roles
roles_of e = record {
  team = e.team;
  art_proxy_contract = e.art_proxy_contract;
  voter = e.voter;
  voted = e.voted;
  attachments = e.attachments;
}

module _ (now block_number token_id : ℕ) (old_locked new_locked : LockedBalance) (s : Escrow) where
  abbrev after : Escrow
  after = check_point_internal now block_number token_id old_locked new_locked s

  pub locked-check_point : after.locked ≡ s.locked
  unfolding check_point_internal check_point_token record_user reschedule_old reschedule_new
  locked-check_point = ground arith

  pub ve_supply-check_point : after.ve_supply ≡ s.ve_supply
  unfolding check_point_internal check_point_token record_user reschedule_old reschedule_new
  ve_supply-check_point = ground arith

  pub token_contract-check_point : after.token_contract ≡ s.token_contract
  unfolding check_point_internal check_point_token record_user reschedule_old reschedule_new
  token_contract-check_point = ground arith

  pub is_locked-check_point : after.is_locked ≡ s.is_locked
  unfolding check_point_internal check_point_token record_user reschedule_old reschedule_new
  is_locked-check_point = ground arith

  pub roles-check_point : roles_of after ≡ roles_of s
  unfolding check_point_internal check_point_token record_user reschedule_old reschedule_new
  roles-check_point = ground arith
