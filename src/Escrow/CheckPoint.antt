-- ===== src/Escrow/CheckPoint.antt =====
-- `_check_point` of ve/src/vedata.rs: the global history is brought up to the present week by week,
-- and the change of one lock is entered into the history, the scheduled slope changes and the
-- user's own history.
pub mod UserPoint
pub mod Decay
pub mod Frame
pub mod History
pub mod Others
pub mod Schedule
use casper_ve_cep.Prelude.{
  ℕ, zero, suc, ◌*◌, ◌/◌, true, false, ◌&&◌, ℤ, pos, is_neg, i128_of, add_i128, sub_i128, mul_i128,
  add_u64, sub_u64, add_u128, sub_u128, mul_u128, as_u64, ltb, ◌==◌, if◌then◌else◌, to_string,
}
use casper_ve_cep.Host.{Dict, set}
use casper_ve_cep.Escrow.State.{
  Escrow, Point, LockedBalance, default_point, get_slope_changes, save_slope_changes, get_point,
  get_user_epoch, user_point_key, week, max_time, multiplier,
}

-- `u_old` and `u_new`: slope and bias of a lock that is still running.
unfoldable pub lock_point : ℕ → LockedBalance → Point
lock_point now l =
    if ltb now l.end && ltb 0 l.amount
    then (record default_point {
      slope = i128_of (l.amount / max_time);
      bias = mul_i128 (i128_of (l.amount / max_time)) (i128_of (sub_u64 l.end now));
    })
    else default_point

-- Negative values are set to zero.
abbrev pub clamp : ℤ → ℤ
clamp x = if is_neg x then pos 0 else x

-- The variables of the loop that fills the history.
pub record Fill : Type 0 where
  pub t_i : ℕ
  pub last_point : Point
  pub last_checkpoint : ℕ
  pub epoch : ℕ
  pub history : Dict Point

module _ (s : Escrow) (now block_number : ℕ) (initial : Point) (block_slope : ℕ) where
  -- The time at which a round stops, and the slope change that is due there.
  abbrev pub round_time : Fill → ℕ
  round_time f = let t = add_u128 f.t_i week in if ltb now t then now else t

  abbrev pub round_slope : Fill → ℤ
  round_slope f =
      let t = add_u128 f.t_i week in if ltb now t then pos 0 else get_slope_changes s (as_u64 t)

  unfoldable pub round_point : Fill → Point
  round_point f = record {
    bias = clamp (
        sub_i128 f.last_point.bias
          (mul_i128 f.last_point.slope (i128_of (sub_u128 (round_time f) f.last_checkpoint))));
    slope = clamp (add_i128 f.last_point.slope (round_slope f));
    ts = as_u64 (round_time f);
    blk =
        add_u64 initial.blk
          (as_u64 (mul_u128 block_slope (sub_u128 (round_time f) initial.ts) / multiplier));
  }

  -- A round that reaches the present, and one that does not.
  abbrev pub last_round : Fill → Fill
  last_round f = record f {
    t_i = round_time f;
    last_point = record (round_point f) { blk = block_number };
    last_checkpoint = as_u64 (round_time f);
    epoch = add_u128 f.epoch 1;
  }

  abbrev pub next_round : Fill → Fill
  next_round f = record f {
    t_i = round_time f;
    last_point = round_point f;
    last_checkpoint = as_u64 (round_time f);
    epoch = add_u128 f.epoch 1;
    history = set f.history (to_string (add_u128 f.epoch 1)) (round_point f);
  }

  -- `for _i in 0..255`, by the rounds left.
  unfoldable pub fill : ℕ → Fill → Fill
  fill zero f = f
  fill (suc rounds) f = elim (round_time f == now) [
    | true ↦ last_round f
    | false ↦ fill rounds (next_round f)
  ]

-- `last_point` before the loop.
abbrev pub start_point : Escrow → ℕ → ℕ → Point
start_point s now block_number =
    if ltb 0 s.epoch
    then get_point s s.epoch
    else record { bias = pos 0; slope = pos 0; ts = now; blk = block_number }

abbrev pub block_slope_of : ℕ → ℕ → Point → ℕ
block_slope_of now block_number p =
    if ltb p.ts now
    then mul_u128 multiplier (sub_u128 block_number p.blk) / sub_u128 now p.ts
    else 0

unfoldable pub fill_history : ℕ → ℕ → Escrow → Fill
fill_history now block_number s =
    let p = start_point s now block_number in
    fill s now block_number p (block_slope_of now block_number p) 255 (record {
      t_i = p.ts / week * week;
      last_point = p;
      last_checkpoint = p.ts;
      epoch = s.epoch;
      history = s.point_history;
    })

-- The change of the lock in the point of the present.
unfoldable pub changed_point : Point → Point → Point → Point
changed_point p u_old u_new = record p {
  slope = clamp (sub_i128 (add_i128 p.slope u_new.slope) u_old.slope);
  bias = clamp (sub_i128 (add_i128 p.bias u_new.bias) u_old.bias);
}

-- The slope changes scheduled at the ends of the old and of the new lock.
abbrev pub old_dslope : Escrow → LockedBalance → ℤ
old_dslope s old_locked = get_slope_changes s old_locked.end

abbrev pub new_dslope : Escrow → LockedBalance → LockedBalance → ℤ
new_dslope s old_locked new_locked =
    if new_locked.end == 0
    then pos 0
    else if new_locked.end == old_locked.end
    then old_dslope s old_locked
    else get_slope_changes s new_locked.end

unfoldable pub reschedule_old :
    ℕ → ℤ → Point → Point → LockedBalance → LockedBalance → Escrow → Escrow
reschedule_old now d u_old u_new old_locked new_locked s =
    if ltb now old_locked.end
    then save_slope_changes old_locked.end
        (if new_locked.end == old_locked.end
          then sub_i128 (add_i128 d u_old.slope) u_new.slope
          else add_i128 d u_old.slope)
        s
    else s

unfoldable pub reschedule_new : ℕ → ℤ → Point → LockedBalance → LockedBalance → Escrow → Escrow
reschedule_new now d u_new old_locked new_locked s =
    if ltb now new_locked.end && ltb old_locked.end new_locked.end
    then save_slope_changes new_locked.end (sub_i128 d u_new.slope) s
    else s

-- The user's own history.
unfoldable pub record_user : ℕ → ℕ → ℕ → Point → Escrow → Escrow
record_user now block_number token_id u_new s =
    let user_epoch = add_u64 (get_user_epoch s token_id) 1 in
    record s {
      user_point_epoch = set s.user_point_epoch (to_string token_id) user_epoch;
      user_point_history =
          set s.user_point_history (user_point_key token_id user_epoch)
            (record u_new { ts = now; blk = block_number });
    }

-- The global epoch and its point, with the change of the lock.
abbrev pub noted : Escrow → Fill → Point → Point → Escrow
noted s f u_old u_new = record s {
  epoch = as_u64 f.epoch;
  point_history = set f.history (to_string f.epoch) (changed_point f.last_point u_old u_new);
}

-- The part of `_check_point` below the loop for a token, that is, `token_id != 0`.
unfoldable pub check_point_token :
    ℕ → ℕ → ℕ → LockedBalance → LockedBalance → Escrow → Fill → Escrow
check_point_token now block_number token_id old_locked new_locked s f =
    let u_old = lock_point now old_locked in
    let u_new = lock_point now new_locked in
    record_user now block_number token_id u_new (
      reschedule_new now (new_dslope s old_locked new_locked) u_new old_locked new_locked (
        reschedule_old now (old_dslope s old_locked) u_old u_new old_locked new_locked
          (noted s f u_old u_new)))

-- `_check_point` at the time `now` and the block `block_number`.
unfoldable pub check_point_internal : ℕ → ℕ → ℕ → LockedBalance → LockedBalance → Escrow → Escrow
check_point_internal now block_number token_id old_locked new_locked s =
    let f = fill_history now block_number s in
    if token_id == 0
    then (record s {
      epoch = as_u64 f.epoch;
      point_history = set f.history (to_string f.epoch) f.last_point;
    })
    else check_point_token now block_number token_id old_locked new_locked s f
