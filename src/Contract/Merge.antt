-- ===== src/Contract/Merge.antt =====
-- What `merge` of ve/src/vedata.rs does to the supply.
use casper_ve_cep.Prelude.{
  ℕ, ◌≡◌, ◌≢◌, ◌∙◌, ap, if◌then◌else◌, arith, inl, inr, leb, add_u128, ◌==◌, text_eq-to_string,
}
use casper_ve_cep.Exec.{done, narrow, Outcome-cases}
use casper_ve_cep.Host.{Env}
use casper_ve_cep.Escrow.State.{
  Escrow, LockedBalance, default_lock, get_locked_balance, current_block_number, merge_type,
}
use casper_ve_cep.Escrow.CheckPoint.{check_point_internal}
use casper_ve_cep.Escrow.CheckPoint.Frame.{ve_supply-check_point, locked-check_point}
use casper_ve_cep.Contract.World.{World}
use casper_ve_cep.Contract.Locks.{
  now, put_lock, merge, burn_nft, require_approved_or_owner, deposit_for_internal,
}
use casper_ve_cep.Contract.Deposits.{deposit_for_internal-Deposited}
use casper_ve_cep.Contract.Guard.{require_approved_or_owner-frame}

-- The end that `merge` passes to `_deposit_for`, which keeps the old one where that is 0.
later_end :
    (a b : ℕ)
    → (if (if leb a b then b else a) == 0 then a else if leb a b then b else a)
      ≡ (if leb a b then b else a)
later_end a b = ground arith

module _ (env : Env) where
  -- Burning a token touches neither the escrow nor the record of payments.
  pub burn_nft-frame :
      (token_id : ℕ) (w w' : World)
      → burn_nft env token_id w ≡ done tt w'
      → (w'.escrow ≡ w.escrow) × (w'.transfers ≡ w.transfers)
  unfolding burn_nft
  burn_nft-frame token_id w w' h = elim (Outcome-cases (require_approved_or_owner env token_id w)) [
    | inr (inl (e, t, bad)) ↦ absurd (ground arith)
    | inr (inr (f, bad)) ↦ absurd (ground arith)
    | inl (done_, w₁, passed) ↦
        let same = require_approved_or_owner-frame env token_id w w₁ passed in
        (ground arith, ground arith)
  ]

  -- The escrow of `merge` before the token is burnt.
  abbrev pub emptied : ℕ → Escrow → Escrow
  emptied from e =
      check_point_internal (now env) current_block_number from (get_locked_balance e from)
        default_lock (put_lock from default_lock e)

  -- The first lock is emptied and no other is touched.
  pub locks-emptied :
      (from : ℕ) (e : Escrow) (id : ℕ)
      → get_locked_balance (emptied from e) id
        ≡ (if from == id then default_lock else get_locked_balance e id)
  locks-emptied from e id =
      rw
        (locked-check_point (now env) current_block_number from (get_locked_balance e from)
          default_lock (put_lock from default_lock e))
        (ground (arith, text_eq-to_string from id))

  pub merge-parts :
      (from to : ℕ) (w w' : World)
      → merge env from to w ≡ done tt w'
      → (from ≢ to)
        × (w₁ : World) × (burn_nft env from (record w { escrow = emptied from w.escrow })
            ≡ done tt w₁)
        × (deposit_for_internal env to
              (get_locked_balance w.escrow from).amount
              (if leb (get_locked_balance w.escrow to).end (get_locked_balance w.escrow from).end
                then (get_locked_balance w.escrow from).end
                else (get_locked_balance w.escrow to).end)
              (get_locked_balance w.escrow to)
              merge_type
              w₁
            ≡ done tt w')
  unfolding merge narrow
  merge-parts from to w w' h = elim (Outcome-cases (require_approved_or_owner env from w)) [
    | inr (inl (e, t, bad)) ↦ absurd (ground arith)
    | inr (inr (f, bad)) ↦ absurd (ground arith)
    | inl (done_, w₁, passed) ↦
        let same = require_approved_or_owner-frame env from w w₁ passed in
        elim (Outcome-cases (require_approved_or_owner env to w)) [
          | inr (inl (e, t, bad)) ↦ absurd (ground arith)
          | inr (inr (f, bad)) ↦ absurd (ground arith)
          | inl (done', w₂, passed') ↦
              let same' = require_approved_or_owner-frame env to w w₂ passed' in
              elim (Outcome-cases
                (burn_nft env from (record w { escrow = emptied from w.escrow }))) [
                  | inr (inl (e, t, bad)) ↦ absurd (ground arith)
                  | inr (inr (f, bad)) ↦ absurd (ground arith)
                  | inl (done'', w₃, burnt) ↦ (ground arith, w₃, burnt, ground arith)
                ]
        ]
  ]

  -- A merge that goes through joins two different tokens and draws no payment. It adds the
  -- whole amount of the first token's lock to the second's, as a `u128`, which ends when the later of
  -- the two did; the first token's lock is empty after it, and no other lock has changed. And yet the
  -- supply grows by the moved amount.
  pub merge-supply :
      (from to : ℕ) (w w' : World)
      → merge env from to w ≡ done tt w'
      → (from ≢ to)
        × (w'.transfers ≡ w.transfers)
        × (w'.escrow.ve_supply
            ≡ add_u128 w.escrow.ve_supply (get_locked_balance w.escrow from).amount)
        × ((get_locked_balance w'.escrow to).amount
            ≡ add_u128
                (get_locked_balance w.escrow to).amount
                (get_locked_balance w.escrow from).amount)
        × ((get_locked_balance w'.escrow to).end ≡ (
            if leb (get_locked_balance w.escrow to).end (get_locked_balance w.escrow from).end
            then (get_locked_balance w.escrow from).end
            else (get_locked_balance w.escrow to).end))
        × ((id : ℕ)
            → id ≢ to
            → get_locked_balance w'.escrow id
              ≡ (if from == id then default_lock else get_locked_balance w.escrow id))
  merge-supply from to w w' h =
      let (distinct, w₁, burnt, run) = merge-parts from to w w' h in
      let (same, before) = burn_nft-frame from _ w₁ burnt in
      let d = deposit_for_internal-Deposited env to _ _ _ merge_type w₁ w' run in
      let supply =
        ve_supply-check_point (now env) current_block_number from (get_locked_balance w.escrow from)
          default_lock (put_lock from default_lock w.escrow) in
      (
        distinct,
        elim d.drawn [
          | inl (idle, still) ↦ still ∙ before
          | inr (due, from', recipient, called, self, moved) ↦ absurd (ground arith)
        ],
        d.supply
            ∙ ap (λ (e : Escrow). add_u128 e.ve_supply (get_locked_balance w.escrow from).amount)
                same
            ∙ ap (λ (v : ℕ). add_u128 v (get_locked_balance w.escrow from).amount) supply,
        ap (λ (l : LockedBalance). l.amount) d.lock,
        ap (λ (l : LockedBalance). l.end) d.lock
            ∙ later_end (get_locked_balance w.escrow to).end (get_locked_balance w.escrow from).end,
        λ id other. ground (arith, d.locks id, same, locks-emptied from w.escrow id),
      )
