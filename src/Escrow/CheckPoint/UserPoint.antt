-- ===== src/Escrow/CheckPoint/UserPoint.antt =====
-- The voting power that a lock has once `_check_point` has recorded it.
use casper_ve_cep.Prelude.{
  ℕ, ◌+◌, ◌-◌, ◌*◌, ◌/◌, ◌^◌, ◌≤◌, ◌<◌, ◌≡◌, ◌≢◌, refl, ◌∙◌, ap, true, false, ◌&&◌, ℤ, pos, ◌-ℤ◌,
  i128_of_small, u128_of, sub_i128, sub_i128_exact, mul_i128_pos, sub_u64, add_u64, ltb, leb,
  to_string, text_eq_refl, get_or, arith, Bool-cases, inl, inr,
}
use native.Mathlib.Nat.{mul-add, mul-le-mul_left}
use casper_ve_cep.Host.{get, Dict}
use casper_ve_cep.Escrow.State.{
  Escrow, Point, LockedBalance, get_user_epoch, user_point_key, max_time, default_point,
}
use casper_ve_cep.Escrow.CheckPoint.{
  lock_point, clamp, Fill, fill_history, noted, old_dslope, new_dslope, reschedule_old,
  reschedule_new, record_user, check_point_token, check_point_internal,
}
use casper_ve_cep.Escrow.Voting.{decayed, balance_of_nft}

-- The voting power of a lock at a time, by the linear decay that the documentation describes: the
-- whole slope times the seconds that are left.
abbrev pub power_of : LockedBalance → ℕ → ℕ
power_of l t = l.amount / max_time * (l.end - t)

mul_sub : (a d e : ℕ) → a * d - a * e ≡ a * (d - e)
mul_sub a d e = elim (Bool-cases (leb e d)) [
  | inl le ↦
      let split : d ≡ e + (d - e) = ground arith in
      omega (arith, mul-add a e (d - e), ap (λ (x : ℕ). a * x) split)
  | inr gt ↦
      let none_left : d - e ≡ 0 = ground arith in
      let over : a * d ≤ a * e = mul-le-mul_left a (ground arith) in rw none_left (omega arith)
]

pos_sub : (a b : ℕ) → a < 2 ^ 127 → b < 2 ^ 127 → clamp (sub_i128 (pos a) (pos b)) ≡ pos (a - b)
pos_sub a b ha hb =
    rw (sub_i128_exact (pos a) (pos b) (unfold ◌-ℤ◌ in ground arith)) (unfold ◌-ℤ◌ in ground arith)

sub_times : (now t : ℕ) → now ≤ t → t < 2 ^ 64 → sub_i128 (pos t) (pos now) ≡ pos (t - now)
sub_times now t h small =
    rw (sub_i128_exact (pos t) (pos now) (unfold ◌-ℤ◌ in ground arith))
      (unfold ◌-ℤ◌ in ground arith)

-- Slope and bias of a lock that is open at `now` and locked for `max_time` at most.
lock_point-open :
    (now : ℕ) (l : LockedBalance)
    → now < l.end
    → l.end ≤ now + max_time
    → l.end < 2 ^ 64
    → 0 < l.amount
    → l.amount < 2 ^ 127
    → lock_point now l ≡ record default_point {
      slope = pos (l.amount / max_time);
      bias = pos (l.amount / max_time * (l.end - now));
    }
unfolding lock_point
lock_point-open now l open_ bound small paid fits =
    let a = l.amount / max_time in
    let d = l.end - now in
    let ad : a * d < 2 ^ 127 =
      let grow = mul-le-mul_left a (let h : d ≤ max_time = omega arith in h) in
      omega (arith, grow) in
    let ea = i128_of_small a (omega arith) in
    let es : sub_u64 l.end now ≡ d = omega arith in
    let ed = i128_of_small d (omega arith) in
    let eb = mul_i128_pos a d ad in
    let live : (ltb now l.end && ltb 0 l.amount) ≡ true = ground arith in
    rw (live, es, ed, ea, eb) refl

-- From a lock's point to its power: the decay never goes below zero.
power-decayed :
    (p : Point) (a d now t : ℕ)
    → p.slope ≡ pos a
    → p.bias ≡ pos (a * d)
    → p.ts ≡ now
    → now ≤ t
    → t < 2 ^ 64
    → a * d < 2 ^ 127
    → a * (t - now) < 2 ^ 127
    → u128_of (clamp (decayed p t)) ≡ a * (d - (t - now))
unfolding decayed
power-decayed p a d now t es eb et h small ad at =
    rw
      (
        es,
        eb,
        et,
        sub_times now t h small,
        mul_i128_pos a (t - now) at,
        pos_sub (a * d) (a * (t - now)) ad at,
      )
      (unfold u128_of in omega (arith, mul_sub a d (t - now)))

reschedule-user_point_epoch :
    (now : ℕ) (d d' : ℤ) (u_old u_new : Point) (old_locked new_locked : LockedBalance) (s : Escrow)
    → (reschedule_new now d' u_new old_locked new_locked
        (reschedule_old now d u_old u_new old_locked new_locked s)).user_point_epoch
      ≡ s.user_point_epoch
unfolding reschedule_old reschedule_new
reschedule-user_point_epoch now d d' u_old u_new old_locked new_locked s = ground arith

balance_of_nft-record_user :
    (now block_number token_id : ℕ) (u_new : Point) (s : Escrow) (t : ℕ)
    → get_user_epoch s token_id + 1 < 2 ^ 64
    → balance_of_nft (record_user now block_number token_id u_new s) token_id t
      ≡ u128_of (clamp (decayed (record u_new { ts = now; blk = block_number }) t))
unfolding balance_of_nft record_user
balance_of_nft-record_user now block_number token_id u_new s t h = ground (
  arith,
  text_eq_refl (to_string token_id),
  text_eq_refl (user_point_key token_id (add_u64 (get_user_epoch s token_id) 1)),
)

closed_power :
    (now : ℕ) (l : LockedBalance) (t : ℕ)
    → now ≤ t
    → (ltb now l.end && ltb 0 l.amount) ≡ false
    → power_of l t ≡ 0
closed_power now l t later closed = elim (Bool-cases (ltb now l.end)) [
  | inl running ↦
      let none_left : l.amount / max_time ≡ 0 = ground arith in rw none_left (omega arith)
  | inr ended ↦ let none_left : l.end - t ≡ 0 = ground arith in rw none_left (omega arith)
]

-- The point that `_check_point` records for a lock, whether it is open or not.
lock_point-power :
    (now : ℕ) (l : LockedBalance) (block_number t : ℕ)
    → l.end ≤ now + max_time
    → l.end < 2 ^ 64
    → l.amount < 2 ^ 127
    → now ≤ t
    → t < 2 ^ 64
    → l.amount / max_time * (t - now) < 2 ^ 127
    → u128_of (clamp (decayed (record (lock_point now l) { ts = now; blk = block_number }) t))
      ≡ power_of l t
lock_point-power now l block_number t bound small fits later t_small decay =
    elim (Bool-cases (ltb now l.end && ltb 0 l.amount)) [
      | inl live ↦
          let a = l.amount / max_time in
          let d = l.end - now in
          let ad : a * d < 2 ^ 127 =
            let grow = mul-le-mul_left a (let h : d ≤ max_time = omega arith in h) in
            omega (arith, grow) in
          let same = lock_point-open now l (ground arith) bound small (ground arith) fits in
          let left : l.end - now - (t - now) ≡ l.end - t = omega arith in
          power-decayed (record (lock_point now l) { ts = now; blk = block_number }) a d now t
            (ap (λ (p : Point). p.slope) same) (ap (λ (p : Point). p.bias) same) refl later t_small
            ad decay
          ∙ ap (λ (x : ℕ). a * x) left
      | inr closed ↦
          let same : lock_point now l ≡ default_point = unfold lock_point in rw closed refl in
          let nothing : power_of l t ≡ 0 = closed_power now l t later closed in
          let decayed_away =
            power-decayed (record (lock_point now l) { ts = now; blk = block_number }) 0 0 now t
              (ap (λ (p : Point). p.slope) same) (ap (λ (p : Point). p.bias) same) refl later
              t_small (omega arith) (omega arith) in
          decayed_away ∙ omega (arith, nothing)
    ]

pub check_point_internal-token :
    (now block_number token_id : ℕ) (old_locked new_locked : LockedBalance) (s : Escrow)
    → token_id ≢ 0
    → check_point_internal now block_number token_id old_locked new_locked s
      ≡ check_point_token now block_number token_id old_locked new_locked s
          (fill_history now block_number s)
unfolding check_point_internal
check_point_internal-token now block_number token_id old_locked new_locked s h = ground arith

balance_of_nft-check_point_token :
    (now block_number token_id : ℕ) (old_locked new_locked : LockedBalance) (s : Escrow) (f : Fill)
    (t : ℕ)
    → get_user_epoch s token_id + 1 < 2 ^ 64
    → balance_of_nft
        (check_point_token now block_number token_id old_locked new_locked s f)
        token_id
        t
      ≡ u128_of
          (clamp (decayed (record (lock_point now new_locked) { ts = now; blk = block_number }) t))
unfolding check_point_token
balance_of_nft-check_point_token now block_number token_id old_locked new_locked s f t room =
    balance_of_nft-record_user now block_number token_id (lock_point now new_locked) _ t (
      rw
        (ap (λ (d : Dict ℕ). get_or (get d (to_string token_id)) 0)
          (reschedule-user_point_epoch now (old_dslope s old_locked)
            (new_dslope s old_locked new_locked) (lock_point now old_locked)
            (lock_point now new_locked) old_locked new_locked
            (noted s f (lock_point now old_locked) (lock_point now new_locked))))
        room)

-- After `_check_point` of a token the voting power of the token at any later time is the linear decay
-- of its new lock: `amount / MAXTIME` for each second until the end, and nothing after it. The lock
-- ends within `MAXTIME`, the values stay within their words, and the token's epoch can grow.
pub balance_of_nft-check_point :
    (now block_number token_id : ℕ) (old_locked new_locked : LockedBalance) (s : Escrow) (t : ℕ)
    → token_id ≢ 0
    → new_locked.end ≤ now + max_time
    → new_locked.end < 2 ^ 64
    → new_locked.amount < 2 ^ 127
    → now ≤ t
    → t < 2 ^ 64
    → new_locked.amount / max_time * (t - now) < 2 ^ 127
    → get_user_epoch s token_id + 1 < 2 ^ 64
    → balance_of_nft
        (check_point_internal now block_number token_id old_locked new_locked s)
        token_id
        t
      ≡ power_of new_locked t
balance_of_nft-check_point now block_number token_id old_locked new_locked s t some_token bound
      small fits later t_small decay room =
    ap (λ (e : Escrow). balance_of_nft e token_id t)
      (check_point_internal-token now block_number token_id old_locked new_locked s some_token)
    ∙ (balance_of_nft-check_point_token now block_number token_id old_locked new_locked s _ t room
        ∙ lock_point-power now new_locked block_number t bound small fits later t_small decay)
