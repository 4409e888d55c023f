-- ===== src/Escrow/Voting.antt =====
-- Voting power over time and over blocks (ve/src/vedata.rs, section GAUGE VOTING STORAGE).
pub mod Search
pub mod Supply
use casper_ve_cep.Prelude.{
  ℕ, zero, suc, ◌+◌, ◌*◌, ◌/◌, true, false, ℤ, pos, is_neg, u128_of, add_i128, sub_i128, mul_i128,
  add_u64, sub_u64, mul_u64, ltb, leb, ◌==◌, if◌then◌else◌,
}
use casper_ve_cep.Errors.{invalid_block}
use casper_ve_cep.Exec.{Exec, ◌>>◌, gets, require}
use casper_ve_cep.Escrow.State.{
  Escrow, Point, get_slope_changes, get_point, get_user_point, get_user_epoch, week,
}
use casper_ve_cep.Escrow.CheckPoint.{clamp}

-- The binary searches of `_find_block_epoch` and `_balance_of_at_nft`: `blk` is the block of the
-- point with a given number, and 128 rounds are given.
unfoldable pub search_rounds : (ℕ → ℕ) → ℕ → ℕ → ℕ → ℕ → ℕ
search_rounds blk block zero low high = low
search_rounds blk block (suc rounds) low high =
    let mid = add_u64 (add_u64 low high) 1 / 2 in
    elim (leb high low) [
      | true ↦ low
      | false ↦ elim (leb (blk mid) block) [
        | true ↦ search_rounds blk block rounds mid high
        | false ↦ search_rounds blk block rounds low (sub_u64 mid 1)
      ]
    ]

unfoldable pub find_block_epoch : Escrow → ℕ → ℕ → ℕ
find_block_epoch s block max_epoch = search_rounds (λ e. (get_point s e).blk) block 128 0 max_epoch

unfoldable pub find_user_epoch : Escrow → ℕ → ℕ → ℕ
find_user_epoch s token_id block =
    search_rounds (λ e. (get_user_point s token_id e).blk) block 128 0 (get_user_epoch s token_id)

-- `bias - slope * (t - ts)` in `i128`, from times that fit an `i128`.
unfoldable pub decayed : Point → ℕ → ℤ
decayed p t = sub_i128 p.bias (mul_i128 p.slope (sub_i128 (pos t) (pos p.ts)))

-- `_balance_of_nft`
unfoldable pub balance_of_nft : Escrow → ℕ → ℕ → ℕ
unfolding decayed
balance_of_nft s token_id t =
    if get_user_epoch s token_id == 0
    then 0
    else u128_of (clamp (decayed (get_user_point s token_id (get_user_epoch s token_id)) t))

-- `_balance_of_at_nft` at the present time and block. A division by zero is excluded by the test.
unfoldable pub balance_of_at_nft : ℕ → ℕ → ℕ → ℕ → Exec Escrow ℕ
unfolding decayed find_user_epoch find_block_epoch
balance_of_at_nft now block_number token_id block = do
  require (leb block block_number) invalid_block
  gets (λ s.
      let upoint = get_user_point s token_id (find_user_epoch s token_id block) in
      let max_epoch = s.epoch in
      let found = find_block_epoch s block max_epoch in
      let point_0 = get_point s found in
      let point_1 = get_point s (found + 1) in
      let d_block =
        if ltb found max_epoch
        then sub_u64 point_1.blk point_0.blk
        else sub_u64 block_number point_0.blk in
      let d_t =
        if ltb found max_epoch then sub_u64 point_1.ts point_0.ts else sub_u64 now point_0.ts in
      let block_time =
        if d_block == 0
        then point_0.ts
        else add_u64 point_0.ts (mul_u64 d_t (sub_u64 block point_0.blk) / d_block) in
      let bias = decayed upoint block_time in if is_neg bias then 0 else u128_of bias)

-- The loop of `_supply_at`: the point is carried forward week by week to the time `t`.
module _ (s : Escrow) (t : ℕ) where
  abbrev pub supply_time : ℕ → ℕ
  supply_time t_i = let next = add_u64 t_i week in if ltb t next then t else next

  abbrev pub supply_slope : ℕ → ℤ
  supply_slope t_i =
      let next = add_u64 t_i week in if ltb t next then pos 0 else get_slope_changes s next

  -- The source adds the new time to the old one.
  abbrev pub supply_point : Point → ℕ → Point
  supply_point p t_i = record p {
    bias = decayed p (supply_time t_i);
    slope = add_i128 p.slope (supply_slope t_i);
    ts = add_u64 p.ts (supply_time t_i);
  }

  unfoldable pub supply_rounds : ℕ → Point → ℕ → ℤ
  unfolding decayed
  supply_rounds zero p t_i = p.bias
  supply_rounds (suc rounds) p t_i = elim (supply_time t_i == t) [
    | true ↦ decayed p (supply_time t_i)
    | false ↦ supply_rounds rounds (supply_point p t_i) (supply_time t_i)
  ]

-- `_supply_at`
unfoldable pub supply_at : Escrow → Point → ℕ → ℕ
unfolding supply_rounds
supply_at s p t = u128_of (clamp (supply_rounds s t 255 p (p.ts / week * week)))

-- `_total_supply_at_t`
unfoldable pub total_supply_at_t : Escrow → ℕ → ℕ
unfolding supply_at
total_supply_at_t s t = supply_at s (get_point s s.epoch) t

-- The entry point `total_supply_at` at the present time and block.
unfoldable pub total_supply_at : ℕ → ℕ → ℕ → Exec Escrow ℕ
unfolding find_block_epoch supply_at
total_supply_at now block_number block = do
  require (leb block block_number) invalid_block
  gets (λ s.
      let target = find_block_epoch s block s.epoch in
      let point = get_point s target in
      let next = get_point s (target + 1) in
      let dt =
        if ltb target s.epoch
        then (if point.blk == next.blk
            then 0
            else mul_u64 (sub_u64 block point.blk) (sub_u64 next.ts point.ts)
              / sub_u64 next.blk point.blk)
        else if point.blk == block_number
        then 0
        else mul_u64 (sub_u64 block point.blk) (sub_u64 now point.ts)
          / sub_u64 block_number point.blk in
      supply_at s point (add_u64 point.ts dt))
