-- ===== src/Escrow/CheckPoint/History.antt =====
-- The loop of `_check_point` brings the global history up to the present.
use casper_ve_cep.Prelude.{
  ℕ, zero, suc, ◌+◌, ◌*◌, ◌/◌, ◌^◌, ◌≤◌, ◌<◌, ◌≡◌, refl, true, false, ℤ, is_neg, ◌==◌, to_string,
  text_eq_refl, arith, Bool-cases, inl, inr, as_u64,
}
use casper_ve_cep.Host.{set, Dict}
use casper_ve_cep.Escrow.State.{Escrow, Point, LockedBalance, get_point, week}
use casper_ve_cep.Escrow.CheckPoint.{
  lock_point, clamp, Fill, fill, fill_history, round_time, round_point, last_round, next_round,
  start_point, block_slope_of, changed_point, noted, old_dslope, new_dslope, reschedule_old,
  reschedule_new, record_user, check_point_token, check_point_internal,
}

-- A point of the present without negative values.
pub record IsCurrent (now block_number : ℕ) (p : Point) : Type 0 where
  pub at_now : p.ts ≡ now
  pub at_block : p.blk ≡ block_number
  pub slope : is_neg p.slope ≡ false
  pub bias : is_neg p.bias ≡ false

is_neg-clamp : (x : ℤ) → is_neg (clamp x) ≡ false
is_neg-clamp x = ground arith

module _ (s : Escrow) (now block_number : ℕ) (initial : Point) (block_slope : ℕ)
    (small : now < 2 ^ 64) where
  last_round-IsCurrent :
      (f : Fill)
      → round_time s now block_number initial block_slope f ≡ now
      → IsCurrent now block_number (last_round s now block_number initial block_slope f).last_point
  unfolding round_point
  last_round-IsCurrent f e = record {
    at_now = rw e (omega arith);
    at_block = refl;
    slope = is_neg-clamp _;
    bias = is_neg-clamp _;
  }

  -- With enough rounds the loop ends by reaching the present.
  fill-IsCurrent :
      (rounds : ℕ) (f : Fill)
      → f.t_i ≤ now
      → now < f.t_i + rounds * week
      → IsCurrent now block_number (fill s now block_number initial block_slope rounds f).last_point
  unfolding fill
  fill-IsCurrent zero f le room = absurd (omega arith)
  fill-IsCurrent (suc rounds) f le room =
      elim (Bool-cases (round_time s now block_number initial block_slope f == now)) [
        | inl reached ↦ rw (reached, fill) (last_round-IsCurrent f (ground arith))
        | inr before ↦
            rw (before, fill)
              (fill-IsCurrent rounds (next_round s now block_number initial block_slope f)
                (ground arith) (ground arith))
      ]

  -- The epoch grows by one in each round.
  fill-epoch :
      (rounds : ℕ) (f : Fill)
      → f.epoch + rounds < 2 ^ 64
      → (f.epoch ≤ (fill s now block_number initial block_slope rounds f).epoch)
        × ((fill s now block_number initial block_slope rounds f).epoch ≤ f.epoch + rounds)
        × (0 < rounds → f.epoch < (fill s now block_number initial block_slope rounds f).epoch)
  unfolding fill
  fill-epoch zero f room = (omega arith, omega arith, λ h. omega arith)
  fill-epoch (suc rounds) f room =
      elim (Bool-cases (round_time s now block_number initial block_slope f == now)) [
        | inl reached ↦ rw (reached, fill) (omega arith, omega arith, λ h. omega arith)
        | inr before ↦
            let (a, b, c) =
              fill-epoch rounds (next_round s now block_number initial block_slope f)
                (omega arith) in
            rw (before, fill) (omega arith, omega arith, λ h. omega arith)
      ]

-- The start of the loop lies in the past, by less than 255 weeks, and the epochs have room.
pub record IsRecent (now block_number : ℕ) (s : Escrow) : Type 0 where
  pub past : (start_point s now block_number).ts ≤ now
  pub near : now < (start_point s now block_number).ts / week * week + 255 * week
  pub word : now < 2 ^ 64
  pub epochs : s.epoch + 255 < 2 ^ 64

fill_history-IsCurrent :
    (now block_number : ℕ) (s : Escrow)
    → IsRecent now block_number s
    → IsCurrent now block_number (fill_history now block_number s).last_point
unfolding fill_history
fill_history-IsCurrent now block_number s r =
    fill-IsCurrent s now block_number _ _ r.word 255 _ (omega (arith, r.past)) r.near

fill_history-epoch :
    (now block_number : ℕ) (s : Escrow)
    → IsRecent now block_number s
    → (s.epoch < (fill_history now block_number s).epoch)
      × ((fill_history now block_number s).epoch < 2 ^ 64)
unfolding fill_history
fill_history-epoch now block_number s r =
    let p = start_point s now block_number in
    let (a, b, c) =
      fill-epoch s now block_number p (block_slope_of now block_number p) r.word 255
        (record {
          t_i = p.ts / week * week;
          last_point = p;
          last_checkpoint = p.ts;
          epoch = s.epoch;
          history = s.point_history;
        })
        r.epochs in
    (c (omega arith), omega (arith, r.epochs))

-- Rescheduling and the user's history leave the global history alone.
recorded-history :
    (now block_number token_id : ℕ) (d d' : ℤ) (u_old u_new : Point)
    (old_locked new_locked : LockedBalance) (s : Escrow)
    → let s' = record_user now block_number token_id u_new (
        reschedule_new now d' u_new old_locked new_locked
          (reschedule_old now d u_old u_new old_locked new_locked s)) in
      (s'.epoch ≡ s.epoch) × (s'.point_history ≡ s.point_history)
unfolding record_user reschedule_old reschedule_new
recorded-history now block_number token_id d d' u_old u_new old_locked new_locked s =
    (ground arith, ground arith)

changed_point-IsCurrent :
    (now block_number : ℕ) (p u_old u_new : Point)
    → IsCurrent now block_number p
    → IsCurrent now block_number (changed_point p u_old u_new)
unfolding changed_point
changed_point-IsCurrent now block_number p u_old u_new c = record {
  at_now = c.at_now;
  at_block = c.at_block;
  slope = is_neg-clamp _;
  bias = is_neg-clamp _;
}

-- A point that is filed under its own epoch is read back.
get_point-set :
    (s : Escrow) (history : Dict Point) (epoch : ℕ) (p : Point)
    → epoch < 2 ^ 64
    → s.epoch ≡ as_u64 epoch
    → s.point_history ≡ set history (to_string epoch) p
    → get_point s s.epoch ≡ p
get_point-set s history epoch p small e h =
    let whole : s.epoch ≡ epoch = omega arith in
    rw (h, whole) (ground (arith, text_eq_refl (to_string epoch)))

check_point-IsCurrent_global :
    (now block_number token_id : ℕ) (old_locked new_locked : LockedBalance) (s : Escrow)
    → IsRecent now block_number s
    → (token_id == 0) ≡ true
    → let s' = check_point_internal now block_number token_id old_locked new_locked s in
      (s.epoch < s'.epoch) × IsCurrent now block_number (get_point s' s'.epoch)
unfolding check_point_internal
check_point-IsCurrent_global now block_number token_id old_locked new_locked s r global =
    let f = fill_history now block_number s in
    let (grown, small) = fill_history-epoch now block_number s r in
    let s' = record s {
      epoch = as_u64 f.epoch;
      point_history = set f.history (to_string f.epoch) f.last_point;
    } in
    rw global (
      omega arith,
      rw (get_point-set s' f.history f.epoch f.last_point small refl refl)
          (fill_history-IsCurrent now block_number s r),
    )

check_point-IsCurrent_token :
    (now block_number token_id : ℕ) (old_locked new_locked : LockedBalance) (s : Escrow)
    → IsRecent now block_number s
    → (token_id == 0) ≡ false
    → let s' = check_point_internal now block_number token_id old_locked new_locked s in
      (s.epoch < s'.epoch) × IsCurrent now block_number (get_point s' s'.epoch)
unfolding check_point_internal check_point_token
check_point-IsCurrent_token now block_number token_id old_locked new_locked s r token =
    let f = fill_history now block_number s in
    let (grown, small) = fill_history-epoch now block_number s r in
    let u_old = lock_point now old_locked in
    let u_new = lock_point now new_locked in
    let s' = check_point_token now block_number token_id old_locked new_locked s f in
    let (e, h) =
      recorded-history now block_number token_id (old_dslope s old_locked)
        (new_dslope s old_locked new_locked) u_old u_new old_locked new_locked
        (noted s f u_old u_new) in
    rw token (
      omega arith,
      rw (get_point-set s' f.history f.epoch (changed_point f.last_point u_old u_new) small e h) (
          changed_point-IsCurrent now block_number f.last_point u_old u_new
            (fill_history-IsCurrent now block_number s r)),
    )

-- Where the last point is less than 255 weeks old, `_check_point` opens a new epoch, and the point of
-- that epoch bears the present time and block and no negative value, for every token and lock.
pub check_point-IsCurrent :
    (now block_number token_id : ℕ) (old_locked new_locked : LockedBalance) (s : Escrow)
    → IsRecent now block_number s
    → let s' = check_point_internal now block_number token_id old_locked new_locked s in
      (s.epoch < s'.epoch) × IsCurrent now block_number (get_point s' s'.epoch)
check_point-IsCurrent now block_number token_id old_locked new_locked s r =
    elim (Bool-cases (token_id == 0)) [
      | inl global ↦
          check_point-IsCurrent_global now block_number token_id old_locked new_locked s r global
      | inr token ↦
          check_point-IsCurrent_token now block_number token_id old_locked new_locked s r token
    ]
