-- ===== src/Contract/PastVotes.antt =====
-- `_get_past_votes_index` of ve/src/vedata.rs against what its callers need of it.
use casper_ve_cep.Prelude.{
  ℕ, zero, suc, ◌-◌, ◌/◌, ◌≤◌, ◌<◌, ◌≡◌, ◌⊎◌, inl, inr, false, Bool-cases, ltb, leb, ◌==◌, arith,
}
use casper_ve_cep.Contract.Roles.{past_votes_loop, past_votes_index}

-- `r` is a checkpoint in force at `timestamp`: not later, and either exactly then or the last such.
abbrev pub IsInForce : (ℕ → ℕ) → ℕ → ℕ → ℕ → Type 0
IsInForce stamp timestamp n r =
    (r < n)
    × (stamp r ≤ timestamp)
    × ((stamp r ≡ timestamp) ⊎ ((i : ℕ) → r < i → i < n → timestamp < stamp i))

-- The timestamps of the `n` checkpoints do not fall.
abbrev pub IsOrdered : (ℕ → ℕ) → ℕ → Type 0
IsOrdered stamp n = (i j : ℕ) → i ≤ j → j < n → stamp i ≤ stamp j

module _ (stamp : ℕ → ℕ) (timestamp n : ℕ) (ordered : IsOrdered stamp n) where
  past_votes_loop-IsInForce :
      (fuel lower upper : ℕ)
      → upper - lower < fuel
      → lower ≤ upper
      → upper < n
      → stamp lower ≤ timestamp
      → ((i : ℕ) → upper < i → i < n → timestamp < stamp i)
      → IsInForce stamp timestamp n (past_votes_loop stamp timestamp fuel lower upper)
  unfolding past_votes_loop
  past_votes_loop-IsInForce zero lower upper room le lt low high = absurd (omega arith)
  past_votes_loop-IsInForce (suc fuel) lower upper room le lt low high =
      let center = upper - (upper - lower) / 2 in
      elim (Bool-cases (ltb lower upper)) [
        | inr met ↦
            let same : lower ≡ upper = ground arith in
            rw (met, past_votes_loop) (omega arith, low, inr (rw same high))
        | inl open_ ↦
            let gap : lower < upper = ground arith in
            elim (Bool-cases (stamp center == timestamp)) [
              | inl exact ↦
                  let e : stamp center ≡ timestamp = ground arith in
                  rw (open_, exact, past_votes_loop) (omega arith, omega arith, inl e)
              | inr other ↦ elim (Bool-cases (ltb (stamp center) timestamp)) [
                | inl before ↦
                    rw (open_, other, before, past_votes_loop)
                      (past_votes_loop-IsInForce fuel center upper (omega arith) (omega arith) lt
                        (ground arith) high)
                | inr after ↦
                    let late : timestamp < stamp center = ground arith in
                    rw (open_, other, after, past_votes_loop)
                      (past_votes_loop-IsInForce fuel lower (upper - 1) (omega arith) (omega arith)
                        (omega arith) low
                        (λ i p q. let later = ordered center i (omega arith) q in omega arith))
              ]
            ]
      ]

  -- For checkpoints in order of time, the first not after the timestamp, the search ends within its
  -- fuel, the number of checkpoints, at one that is in force at the timestamp.
  pub past_votes_index-IsInForce :
      0 < n → stamp 0 ≤ timestamp → IsInForce stamp timestamp n (past_votes_index stamp timestamp n)
  unfolding past_votes_index
  past_votes_index-IsInForce some_point first = elim (Bool-cases (leb (stamp (n - 1)) timestamp)) [
    | inl latest ↦
        let e : (n == 0) ≡ false = ground arith in
        rw (e, latest) (omega arith, ground arith, inr (λ i p q. absurd (omega arith)))
    | inr older ↦
        let e : (n == 0) ≡ false = ground arith in
        let f : ltb timestamp (stamp 0) ≡ false = ground arith in
        rw (e, older, f)
          (past_votes_loop-IsInForce n 0 (n - 1) (omega arith) (omega arith) (omega arith) first
            (λ i p q. absurd (omega arith)))
  ]
