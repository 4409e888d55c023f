-- ===== src/Escrow/CheckPoint/Schedule.antt =====
-- The slope changes that `_check_point` of ve/src/vedata.rs schedules for a changed lock.
use casper_ve_cep.Prelude.{
  ℕ, ◌≤◌, ◌≡◌, ◌≢◌, ◌⊎◌, inl, inr, refl, ◌∙◌, ap, false, ◌&&◌, ℤ, pos, negsuc, ◌+ℤ◌, ◌-ℤ◌, IsI128,
  wrap_i128, wrap_i128-of_IsI128, wrap_i128-IsI128, add_i128, sub_i128, ltb, ◌==◌, if◌then◌else◌,
  arith, Bool-cases, to_string, text_eq-to_string, get_or,
}
use casper_ve_cep.Host.{Dict, get}
use casper_ve_cep.Escrow.State.{Escrow, Point, LockedBalance, get_slope_changes}
use casper_ve_cep.Escrow.CheckPoint.{
  lock_point, Fill, fill_history, noted, old_dslope, new_dslope, reschedule_old, reschedule_new,
  record_user, check_point_token, check_point_internal,
}
use casper_ve_cep.Escrow.CheckPoint.UserPoint.{check_point_internal-token}

-- The slope that a lock sheds at the time `x`: its whole slope at its end, if it is running.
abbrev pub shed : ℕ → LockedBalance → ℕ → ℤ
shed now l x = if l.end == x then (lock_point now l).slope else pos 0

plus_zero : (a : ℤ) → a +ℤ pos 0 ≡ a
unfolding ◌+ℤ◌
plus_zero (pos n) = ground arith
plus_zero (negsuc n) = ground arith

minus_zero : (a : ℤ) → a -ℤ pos 0 ≡ a
unfolding ◌-ℤ◌
minus_zero (pos n) = ground arith
minus_zero (negsuc n) = ground arith

pub add_zero : (a : ℤ) → IsI128 a → add_i128 a (pos 0) ≡ a
unfolding add_i128
add_zero a h = ap wrap_i128 (plus_zero a) ∙ wrap_i128-of_IsI128 a h

sub_zero : (a : ℤ) → IsI128 a → sub_i128 a (pos 0) ≡ a
unfolding sub_i128
sub_zero a h = ap wrap_i128 (minus_zero a) ∙ wrap_i128-of_IsI128 a h

add_IsI128 : (a b : ℤ) → IsI128 (add_i128 a b)
unfolding add_i128
add_IsI128 a b = wrap_i128-IsI128 (a +ℤ b)

closed_slope :
    (now : ℕ) (l : LockedBalance) → ltb now l.end ≡ false → (lock_point now l).slope ≡ pos 0
unfolding lock_point
closed_slope now l h = ground arith

module _ (now : ℕ) (old_locked new_locked : LockedBalance) (s : Escrow) (x : ℕ) where
  rescheduled :
      (d d' : ℤ) (u_old u_new : Point)
      → let s' =
          reschedule_new now d' u_new old_locked new_locked
            (reschedule_old now d u_old u_new old_locked new_locked s) in
        get_slope_changes s' x ≡ (
          if ltb now new_locked.end && ltb old_locked.end new_locked.end && (new_locked.end == x)
          then sub_i128 d' u_new.slope
          else if ltb now old_locked.end && (old_locked.end == x)
          then (if new_locked.end == old_locked.end
              then sub_i128 (add_i128 d u_old.slope) u_new.slope
              else add_i128 d u_old.slope)
          else get_slope_changes s x)
  unfolding reschedule_old reschedule_new
  rescheduled d d' u_old u_new =
      ground (arith, text_eq-to_string new_locked.end x, text_eq-to_string old_locked.end x)

  -- The whole slope change that the lock makes at the time `x`.
  abbrev exchanged : ℤ
  exchanged =
      sub_i128 (add_i128 (get_slope_changes s x) (shed now old_locked x)) (shed now new_locked x)

  reconciled :
      IsI128 (get_slope_changes s x)
      → (new_locked.end ≡ 0) ⊎ (old_locked.end ≤ new_locked.end)
      → (if ltb now new_locked.end && ltb old_locked.end new_locked.end && (new_locked.end == x)
          then sub_i128 (new_dslope s old_locked new_locked) (lock_point now new_locked).slope
          else if ltb now old_locked.end && (old_locked.end == x)
          then (if new_locked.end == old_locked.end
              then sub_i128
                  (add_i128 (old_dslope s old_locked) (lock_point now old_locked).slope)
                  (lock_point now new_locked).slope
              else add_i128 (old_dslope s old_locked) (lock_point now old_locked).slope)
          else get_slope_changes s x)
        ≡ exchanged
  reconciled fits longer =
      let kept = add_zero (get_slope_changes s x) fits in
      let back = sub_zero (get_slope_changes s x) fits in
      let shifted =
        sub_zero (add_i128 (get_slope_changes s x) (lock_point now old_locked).slope)
          (add_IsI128 (get_slope_changes s x) (lock_point now old_locked).slope) in
      let gone = closed_slope now old_locked in
      let gone' = closed_slope now new_locked in
      elim (Bool-cases (new_locked.end == x)) [
        | inl here ↦
            let e : new_locked.end ≡ x = ground arith in
            let f = ap (get_slope_changes s) e in
            elim (Bool-cases (old_locked.end == x)) [
              | inl both ↦
                  let e' : old_locked.end ≡ x = ground arith in
                  let f' = ap (get_slope_changes s) e' in ground (arith, gone, gone')
              | inr apart ↦ ground (arith, gone, gone')
            ]
        | inr other ↦ elim (Bool-cases (old_locked.end == x)) [
          | inl here ↦
              let e : old_locked.end ≡ x = ground arith in
              let f = ap (get_slope_changes s) e in ground (arith, gone, gone')
          | inr there ↦ ground (arith, gone, gone')
        ]
      ]

slope_changes-record_user :
    (now block_number token_id : ℕ) (u_new : Point) (s : Escrow)
    → (record_user now block_number token_id u_new s).slope_changes ≡ s.slope_changes
unfolding record_user
slope_changes-record_user now block_number token_id u_new s = refl

slope_changes-check_point_token :
    (now block_number token_id : ℕ) (old_locked new_locked : LockedBalance) (s : Escrow) (f : Fill)
    (x : ℕ)
    → IsI128 (get_slope_changes s x)
    → (new_locked.end ≡ 0) ⊎ (old_locked.end ≤ new_locked.end)
    → get_slope_changes (check_point_token now block_number token_id old_locked new_locked s f) x
      ≡ sub_i128 (add_i128 (get_slope_changes s x) (shed now old_locked x)) (shed now new_locked x)
unfolding check_point_token
slope_changes-check_point_token now block_number token_id old_locked new_locked s f x fits longer =
    let u_old = lock_point now old_locked in
    let u_new = lock_point now new_locked in
    ap (λ (d : Dict ℤ). get_or (get d (to_string x)) (pos 0))
      (slope_changes-record_user now block_number token_id u_new _)
    ∙ rescheduled now old_locked new_locked (noted s f u_old u_new) x (old_dslope s old_locked)
        (new_dslope s old_locked new_locked) u_old u_new
    ∙ reconciled now old_locked new_locked s x fits longer

-- `_check_point` of a token, where the new lock is empty or ends no earlier than the old one, keeps
-- the schedule of slope changes in balance: at every time the slope that the old lock would shed there
-- is given back, and the slope that the new lock sheds there is taken away, and nothing else changes.
pub slope_changes-check_point :
    (now block_number token_id : ℕ) (old_locked new_locked : LockedBalance) (s : Escrow) (x : ℕ)
    → token_id ≢ 0
    → IsI128 (get_slope_changes s x)
    → (new_locked.end ≡ 0) ⊎ (old_locked.end ≤ new_locked.end)
    → get_slope_changes (check_point_internal now block_number token_id old_locked new_locked s) x
      ≡ sub_i128 (add_i128 (get_slope_changes s x) (shed now old_locked x)) (shed now new_locked x)
slope_changes-check_point now block_number token_id old_locked new_locked s x some_token fits
      longer =
    ap (λ (e : Escrow). get_slope_changes e x)
      (check_point_internal-token now block_number token_id old_locked new_locked s some_token)
    ∙ slope_changes-check_point_token now block_number token_id old_locked new_locked s
        (fill_history now block_number s) x fits longer
