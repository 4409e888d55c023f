-- ===== src/Escrow/CheckPoint/Decay.antt =====
-- Bounds on the voting power that `_balance_of_nft` of ve/src/vedata.rs computes after `_check_point`.
use native.Mathlib.Nat.{mul-le-mul_left}
use casper_ve_cep.Prelude.{ℕ, ◌+◌, ◌-◌, ◌*◌, ◌/◌, ◌^◌, ◌≤◌, ◌<◌, ◌≢◌, arith}
use casper_ve_cep.Escrow.State.{Escrow, LockedBalance, max_time, get_user_epoch}
use casper_ve_cep.Escrow.Voting.{balance_of_nft}
use casper_ve_cep.Escrow.CheckPoint.{check_point_internal}
use casper_ve_cep.Escrow.CheckPoint.UserPoint.{power_of, balance_of_nft-check_point}

module _ (l : LockedBalance) where
  power_of-bounded : (now t : ℕ) → l.end ≤ now + max_time → now ≤ t → power_of l t ≤ l.amount
  power_of-bounded now t bound later =
      let most : l.amount / max_time * (l.end - t) ≤ l.amount / max_time * max_time =
        mul-le-mul_left (l.amount / max_time) (omega arith) in
      omega (arith, most)

  power_of-falls : (t t' : ℕ) → t ≤ t' → power_of l t' ≤ power_of l t
  power_of-falls t t' later = mul-le-mul_left (l.amount / max_time) (omega arith)

-- After `_check_point` of a token whose lock ends within `MAXTIME`, the voting power of the token is
-- at most the locked amount at every time from then on, and never rises as time passes, while the
-- values stay within their words and the token's epoch can grow.
pub balance_of_nft-bounded :
    (now block_number token_id : ℕ) (old_locked new_locked : LockedBalance) (s : Escrow) (t t' : ℕ)
    → token_id ≢ 0
    → new_locked.end ≤ now + max_time
    → new_locked.end < 2 ^ 64
    → new_locked.amount < 2 ^ 127
    → now ≤ t
    → t ≤ t'
    → t' < 2 ^ 64
    → new_locked.amount / max_time * (t' - now) < 2 ^ 127
    → get_user_epoch s token_id + 1 < 2 ^ 64
    → (balance_of_nft
          (check_point_internal now block_number token_id old_locked new_locked s)
          token_id
          t
        ≤ new_locked.amount)
      × (balance_of_nft
            (check_point_internal now block_number token_id old_locked new_locked s)
            token_id
            t'
          ≤ balance_of_nft
              (check_point_internal now block_number token_id old_locked new_locked s)
              token_id
              t)
balance_of_nft-bounded now block_number token_id old_locked new_locked s t t' some_token bound small
      fits later after t_small decay room =
    let sooner : new_locked.amount / max_time * (t - now) < 2 ^ 127 =
      let less : new_locked.amount / max_time * (t - now)
          ≤ new_locked.amount / max_time * (t' - now) =
        mul-le-mul_left (new_locked.amount / max_time) (omega arith) in
      omega (arith, less) in
    let first =
      balance_of_nft-check_point now block_number token_id old_locked new_locked s t some_token
        bound small fits later (omega arith) sooner room in
    let second =
      balance_of_nft-check_point now block_number token_id old_locked new_locked s t' some_token
        bound small fits (omega arith) t_small decay room in
    (
      rw first (power_of-bounded new_locked now t bound later),
      rw (second, first) (power_of-falls new_locked t t' after),
    )
