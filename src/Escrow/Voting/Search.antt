-- ===== src/Escrow/Voting/Search.antt =====
-- The binary searches over points: where they stop, and that 128 rounds are enough.
use native.Mathlib.Nat.{two-pow-succ}
use casper_ve_cep.Prelude.{
  ℕ, zero, suc, ◌+◌, ◌-◌, ◌/◌, ◌^◌, ◌≤◌, ◌<◌, ◌≡◌, refl, ◌⊎◌, inl, inr, Bool-cases, leb, arith,
  add_u64, sub_u64,
}
use casper_ve_cep.Escrow.State.{Escrow, get_point, get_user_point, get_user_epoch}
use casper_ve_cep.Escrow.Voting.{search_rounds, find_block_epoch, find_user_epoch}

-- `r` is a last place, between `low` and `high`, whose block is not above the wanted one, in the sense
-- that the next place is above it. At the two ends nothing is claimed of the places beyond.
abbrev pub IsLast : (ℕ → ℕ) → ℕ → ℕ → ℕ → ℕ → Type 0
IsLast blk block low high r =
    (low ≤ r) × (r ≤ high) × ((r ≡ low) ⊎ (blk r ≤ block)) × ((r ≡ high) ⊎ (block < blk (r + 1)))

module _ (blk : ℕ → ℕ) (block : ℕ) where
  -- The bounds move inward, and what is known of them stays known.
  IsLast-raise :
      (low mid high r : ℕ)
      → low ≤ mid
      → blk mid ≤ block
      → IsLast blk block mid high r
      → IsLast blk block low high r
  IsLast-raise low mid high r le below (a, b, inl c, d) = (omega arith, b, inr (rw c below), d)
  IsLast-raise low mid high r le below (a, b, inr c, d) = (omega arith, b, inr c, d)

  IsLast-lower :
      (low mid high r : ℕ)
      → low < mid
      → mid ≤ high
      → block < blk mid
      → IsLast blk block low (mid - 1) r
      → IsLast blk block low high r
  IsLast-lower low mid high r lt le above (a, b, c, inl d) =
      let e : r + 1 ≡ mid = omega arith in (a, omega arith, c, inr (rw e above))
  IsLast-lower low mid high r lt le above (a, b, c, inr d) = (a, omega arith, c, inr d)

  search_rounds-IsLast :
      (rounds low high : ℕ)
      → low ≤ high
      → high < 2 ^ 63
      → high - low < 2 ^ rounds
      → IsLast blk block low high (search_rounds blk block rounds low high)
  unfolding search_rounds
  search_rounds-IsLast zero low high le small room = (omega arith, le, inl refl, inl (omega arith))
  search_rounds-IsLast (suc rounds) low high le small room =
      let mid = add_u64 (add_u64 low high) 1 / 2 in
      let wide = two-pow-succ rounds in
      elim (Bool-cases (leb high low)) [
        | inl closed ↦ rw (closed, search_rounds) (omega arith, le, inl refl, inl (ground arith))
        | inr open_ ↦
            let lt : low < high = ground arith in
            let between : mid ≡ (low + high + 1) / 2 = omega arith in
            elim (Bool-cases (leb (blk mid) block)) [
              | inl below ↦
                  rw (open_, below, search_rounds)
                    (IsLast-raise low mid high _ (omega arith) (ground arith)
                      (search_rounds-IsLast rounds mid high (omega arith) small (omega arith)))
              | inr above ↦
                  let less : sub_u64 mid 1 ≡ mid - 1 = omega arith in
                  rw (open_, above, less, search_rounds)
                    (IsLast-lower low mid high _ (omega arith) (omega arith) (ground arith) (
                      search_rounds-IsLast rounds low (mid - 1) (omega arith) (omega arith)
                        (omega arith)))
            ]
      ]

-- For a history of fewer than 2^63 points `_find_block_epoch` ends within its 128 rounds at a point
-- of the history that is not above the block, or at point 0, and the point behind it is above the
-- block, unless it is the last. The blocks of the points need not be in order.
pub find_block_epoch-IsLast :
    (s : Escrow) (block max_epoch : ℕ)
    → max_epoch < 2 ^ 63
    → IsLast (λ e. (get_point s e).blk) block 0 max_epoch (find_block_epoch s block max_epoch)
unfolding find_block_epoch
find_block_epoch-IsLast s block max_epoch small =
    search_rounds-IsLast (λ e. (get_point s e).blk) block 128 0 max_epoch (omega arith) small
      (omega arith)

-- The search of `_balance_of_at_nft` over the points of one token does so too.
pub find_user_epoch-IsLast :
    (s : Escrow) (token_id block : ℕ)
    → get_user_epoch s token_id < 2 ^ 63
    → IsLast
        (λ e. (get_user_point s token_id e).blk)
        block
        0
        (get_user_epoch s token_id)
        (find_user_epoch s token_id block)
unfolding find_user_epoch
find_user_epoch-IsLast s token_id block small =
    search_rounds-IsLast (λ e. (get_user_point s token_id e).blk) block 128 0
      (get_user_epoch s token_id) (omega arith) small (omega arith)
