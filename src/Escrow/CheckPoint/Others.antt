-- ===== src/Escrow/CheckPoint/Others.antt =====
-- What `_check_point` of one token does to the voting power of the others (`_check_point` and
-- `_balance_of_nft` of ve/src/vedata.rs).
use casper_ve_cep.Prelude.{
  ℕ, ◌+◌, ◌<◌, ◌^◌, ◌≡◌, ◌≢◌, refl, ◌∙◌, ap, true, false, ℤ, arith, add_u64, Text, to_string,
  text_eq, text_eq_refl, text_eq-to_string,
}
use casper_ve_cep.Escrow.State.{Escrow, Point, LockedBalance, get_user_epoch, user_point_key}
use casper_ve_cep.Escrow.CheckPoint.{
  lock_point, fill_history, noted, old_dslope, new_dslope, reschedule_old, reschedule_new,
  record_user, check_point_token, check_point_internal,
}
use casper_ve_cep.Escrow.CheckPoint.UserPoint.{check_point_internal-token}
use casper_ve_cep.Escrow.Voting.{balance_of_nft}

-- The item key under which `_check_point` files the new point of a token.
abbrev pub next_key : Escrow → ℕ → Text
next_key s token_id = user_point_key token_id (add_u64 (get_user_epoch s token_id) 1)

module _ (now block_number token_id : ℕ) (u_new : Point) (s : Escrow) (other t : ℕ)
    (apart : token_id ≢ other) where
  record_user-kept :
      text_eq (next_key s token_id) (user_point_key other (get_user_epoch s other)) ≡ false
      → balance_of_nft (record_user now block_number token_id u_new s) other t
        ≡ balance_of_nft s other t
  unfolding record_user balance_of_nft
  record_user-kept free =
      let e : text_eq (to_string token_id) (to_string other) ≡ false =
        text_eq-to_string token_id other ∙ ground arith in
      ground arith

  record_user-shared :
      get_user_epoch s token_id + 1 < 2 ^ 64
      → get_user_epoch s other ≢ 0
      → text_eq (next_key s token_id) (user_point_key other (get_user_epoch s other)) ≡ true
      → balance_of_nft (record_user now block_number token_id u_new s) other t
        ≡ balance_of_nft (record_user now block_number token_id u_new s) token_id t
  unfolding record_user balance_of_nft
  record_user-shared room used same =
      let e : text_eq (to_string token_id) (to_string other) ≡ false =
        text_eq-to_string token_id other ∙ ground arith in
      ground (arith, text_eq_refl (to_string token_id), text_eq_refl (next_key s token_id))

-- What `_check_point` does before it writes the user's history leaves that history alone.
rescheduled-user :
    (now : ℕ) (d d' : ℤ) (u_old u_new : Point) (old_locked new_locked : LockedBalance) (s : Escrow)
    → let s' =
        reschedule_new now d' u_new old_locked new_locked
          (reschedule_old now d u_old u_new old_locked new_locked s) in
      (s'.user_point_epoch ≡ s.user_point_epoch) × (s'.user_point_history ≡ s.user_point_history)
unfolding reschedule_old reschedule_new
rescheduled-user now d d' u_old u_new old_locked new_locked s = (ground arith, ground arith)

module _ (s s' : Escrow) (epochs : s'.user_point_epoch ≡ s.user_point_epoch) where
  balance_of_nft-frame :
      (token_id t : ℕ)
      → s'.user_point_history ≡ s.user_point_history
      → balance_of_nft s' token_id t ≡ balance_of_nft s token_id t
  unfolding balance_of_nft
  balance_of_nft-frame token_id t history = rw (epochs, history) refl

  get_user_epoch-frame : (token_id : ℕ) → get_user_epoch s' token_id ≡ get_user_epoch s token_id
  get_user_epoch-frame token_id = rw epochs refl

  collision-frame :
      (token_id other : ℕ)
      → text_eq (next_key s' token_id) (user_point_key other (get_user_epoch s' other))
        ≡ text_eq (next_key s token_id) (user_point_key other (get_user_epoch s other))
  collision-frame token_id other = rw epochs refl

module _ (now block_number token_id : ℕ) (old_locked new_locked : LockedBalance) (s : Escrow)
    (other t : ℕ) (some_token : token_id ≢ 0) (apart : token_id ≢ other) where
  -- The storage before the user's history is written.
  abbrev before : Escrow
  before =
      let f = fill_history now block_number s in
      let u_old = lock_point now old_locked in
      let u_new = lock_point now new_locked in
      reschedule_new now (new_dslope s old_locked new_locked) u_new old_locked new_locked (
        reschedule_old now (old_dslope s old_locked) u_old u_new old_locked new_locked
          (noted s f u_old u_new))

  before-user :
      (before.user_point_epoch ≡ s.user_point_epoch)
      × (before.user_point_history ≡ s.user_point_history)
  before-user =
      let f = fill_history now block_number s in
      let u_old = lock_point now old_locked in
      let u_new = lock_point now new_locked in
      rescheduled-user now (old_dslope s old_locked) (new_dslope s old_locked new_locked) u_old
        u_new old_locked new_locked (noted s f u_old u_new)

  check_point_internal-record_user :
      check_point_internal now block_number token_id old_locked new_locked s
      ≡ record_user now block_number token_id (lock_point now new_locked) before
  unfolding check_point_token
  check_point_internal-record_user =
      check_point_internal-token now block_number token_id old_locked new_locked s some_token

  -- `_check_point` of a token leaves the voting power of another token, at every time, as it is,
  -- where the item key of the new point is not the one of the other token's last point.
  pub other_power_kept :
      text_eq (next_key s token_id) (user_point_key other (get_user_epoch s other)) ≡ false
      → balance_of_nft
          (check_point_internal now block_number token_id old_locked new_locked s)
          other
          t
        ≡ balance_of_nft s other t
  other_power_kept free =
      let (epochs, history) = before-user in
      ap (λ (e : Escrow). balance_of_nft e other t) check_point_internal-record_user
      ∙ record_user-kept now block_number token_id (lock_point now new_locked) before other t apart
          (collision-frame s before epochs token_id other ∙ free)
      ∙ balance_of_nft-frame s before epochs other t history

  -- Where the two item keys agree, as those of token 1 at epoch 11 and of token 11 at epoch 1 do,
  -- `_check_point` of a token gives the other token, which has a point, the voting power of the
  -- first, at every time.
  pub other_power_overwritten :
      get_user_epoch s token_id + 1 < 2 ^ 64
      → get_user_epoch s other ≢ 0
      → text_eq (next_key s token_id) (user_point_key other (get_user_epoch s other)) ≡ true
      → let s' = check_point_internal now block_number token_id old_locked new_locked s in
        balance_of_nft s' other t ≡ balance_of_nft s' token_id t
  other_power_overwritten room used same =
      let (epochs, history) = before-user in
      rw check_point_internal-record_user (
        record_user-shared now block_number token_id (lock_point now new_locked) before other t
          apart (rw (get_user_epoch-frame s before epochs token_id) room)
          (rw (get_user_epoch-frame s before epochs other) used)
          (collision-frame s before epochs token_id other ∙ same))
