-- ===== src/Contract/Undated.antt =====
-- The timestamps of checkpoints of votes under the entry points of ve/src/vedata.rs that change locks
-- or votes.
use casper_ve_cep.Prelude.{ℕ, ◌≡◌, ◌∙◌, ap, true, [], ◌∷◌, arith, inl, inr, Option-cases}
use casper_ve_cep.Exec.{done, Outcome-cases, ◌>>=◌, ◌>>◌, result_or_revert}
use casper_ve_cep.Host.{Env, Key, null_key}
use casper_ve_cep.Token.Cep47.{burn, owner_of}
use casper_ve_cep.Escrow.State.{merge_type}
use casper_ve_cep.Votes.State.{Votes, delegates_of}
use casper_ve_cep.Votes.Delegation.{move_token_delegates}
use casper_ve_cep.Votes.Undated.{
  IsUndated, move_token_delegates-IsUndated, delegates_of-Keeps, delegate_to-IsUndated,
}
use casper_ve_cep.Contract.World.{World, on_token, on_votes}
use casper_ve_cep.Contract.Locks.{
  require_approved_or_owner, burn_nft, create_lock_internal, increase_amount_for, merge,
  increase_unlock_time, increase_amount, create_lock_for, create_lock, deposit_for,
}
use casper_ve_cep.Contract.Roles.{delegate}
use casper_ve_cep.Contract.Deposits.{deposit_for_internal-Deposited}
use casper_ve_cep.Contract.Guard.{require_approved_or_owner-frame}
use casper_ve_cep.Contract.Create.{Entered, create_lock_internal-deposit}
use casper_ve_cep.Contract.Delegates.{delegate-run}
use casper_ve_cep.Contract.Entry.{guarded, create_lock-run, create_lock_for-run}
use casper_ve_cep.Contract.Merge.{merge-parts}
use casper_ve_cep.Contract.Moves.{
  deposit_for-run, increase_amount_for-run, increase_amount-run, increase_unlock_time-run,
}

votes_of : {w w' : World} → w' ≡ w → w'.votes ≡ w.votes
votes_of e = ap (λ (w : World). w.votes) e

module _ (env : Env) where
  Entered-IsUndated :
      (to : Key) (id : ℕ) (v v' : Votes) → IsUndated v → Entered env to id v v' → IsUndated v'
  Entered-IsUndated to id v v' u (dst, v₁, found, moved) =
      move_token_delegates-IsUndated env null_key dst id v₁ v'
        (rw (delegates_of-Keeps env to v v₁ dst found) u) moved

  create_lock_internal-IsUndated :
      (value lock_duration id : ℕ) (to : Key) (w w' : World)
      → IsUndated w.votes
      → create_lock_internal env value lock_duration to w ≡ done id w'
      → IsUndated w'.votes
  create_lock_internal-IsUndated value lock_duration id to w w' u h =
      let (ids, w₁, minted, same, before, entered, run) =
        create_lock_internal-deposit env value lock_duration to id w w' h in
      rw (deposit_for_internal-Deposited env id value _ _ _ w₁ w' run).votes
        (Entered-IsUndated to id w.votes w₁.votes u entered)

  burnt-IsUndated :
      (id : ℕ) (owner : Key) (w w' : World)
      → IsUndated w.votes
      → (on_token (result_or_revert (burn env owner (id ∷ [])))
            >> on_votes (move_token_delegates env owner null_key id)
            >> (on_votes (delegates_of env owner) >>= λ d.
                on_votes (move_token_delegates env d null_key id)))
          w
        ≡ done tt w'
      → IsUndated w'.votes
  burnt-IsUndated id owner w w' u h = elim (Outcome-cases (burn env owner (id ∷ []) w.token)) [
    | inr (inl (e, t, bad)) ↦ absurd (ground arith)
    | inr (inr (f, bad)) ↦ absurd (ground arith)
    | inl (x, t, burnt) ↦
        elim (Outcome-cases (move_token_delegates env owner null_key id w.votes)) [
          | inr (inl (e, v, bad)) ↦ absurd (ground arith)
          | inr (inr (f, bad)) ↦ absurd (ground arith)
          | inl (y, v₁, first) ↦ elim (Outcome-cases (delegates_of env owner v₁)) [
            | inr (inl (e, v, bad)) ↦ absurd (ground arith)
            | inr (inr (f, bad)) ↦ absurd (ground arith)
            | inl (d, v₂, found) ↦
                let u₁ = move_token_delegates-IsUndated env owner null_key id w.votes v₁ u first in
                let u₂ : IsUndated v₂ = rw (delegates_of-Keeps env owner v₁ v₂ d found) u₁ in
                move_token_delegates-IsUndated env d null_key id v₂ w'.votes u₂ (ground arith)
          ]
        ]
  ]

  burn_nft-IsUndated :
      (id : ℕ) (w w' : World)
      → IsUndated w.votes
      → burn_nft env id w ≡ done tt w'
      → IsUndated w'.votes
  unfolding burn_nft
  burn_nft-IsUndated id w w' u h = elim (Outcome-cases (require_approved_or_owner env id w)) [
    | inr (inl (e, t, bad)) ↦ absurd (ground arith)
    | inr (inr (f, bad)) ↦ absurd (ground arith)
    | inl (x, w₀, passed) ↦
        let same = require_approved_or_owner-frame env id w w₀ passed in
        elim (Option-cases (owner_of env w.token id)) [
          | inl missing ↦ absurd (ground arith)
          | inr (owner, found) ↦ burnt-IsUndated id owner w w' u (ground arith)
        ]
  ]

module _ (env : Env) (w w' : World) where
  pub delegate-IsUndated :
      (delegatee : Key)
      → IsUndated w.votes
      → delegate env delegatee w ≡ done tt w'
      → IsUndated w'.votes
  delegate-IsUndated delegatee u h =
      let (caller, called, v, same, run) = delegate-run env delegatee w w' h in
      rw same (delegate_to-IsUndated env w.token caller delegatee w.votes v u run)

  pub create_lock-IsUndated :
      (amount lock_duration : ℕ)
      → IsUndated w.votes
      → create_lock env amount lock_duration w ≡ done tt w'
      → IsUndated w'.votes
  create_lock-IsUndated amount lock_duration u h =
      let (open_, caller, called, id, w₁, same, run) =
        create_lock-run env amount lock_duration w w' h in
      rw same (
        create_lock_internal-IsUndated env amount lock_duration id caller (guarded true w) w₁ u run)

  pub create_lock_for-IsUndated :
      (amount lock_duration : ℕ) (to : Key)
      → IsUndated w.votes
      → create_lock_for env amount lock_duration to w ≡ done tt w'
      → IsUndated w'.votes
  create_lock_for-IsUndated amount lock_duration to u h =
      let (open_, id, w₁, same, run) = create_lock_for-run env amount lock_duration to w w' h in
      rw same
        (create_lock_internal-IsUndated env amount lock_duration id to (guarded true w) w₁ u run)

  pub merge-IsUndated :
      (from to : ℕ) → IsUndated w.votes → merge env from to w ≡ done tt w' → IsUndated w'.votes
  merge-IsUndated from to u h =
      let (distinct, w₁, run_burn, run) = merge-parts env from to w w' h in
      rw (deposit_for_internal-Deposited env to _ _ _ merge_type w₁ w' run).votes
        (burn_nft-IsUndated env from _ w₁ u run_burn)

  pub deposit_for-votes :
      (id amount : ℕ) → deposit_for env id amount w ≡ done tt w' → w'.votes ≡ w.votes
  deposit_for-votes id amount h =
      let (held, run) = deposit_for-run env id amount w w' h in
      (deposit_for_internal-Deposited env id amount 0 _ _ w w' run).votes

  pub increase_amount_for-votes :
      (id amount : ℕ) → increase_amount_for env id amount w ≡ done tt w' → w'.votes ≡ w.votes
  increase_amount_for-votes id amount h =
      let (held, run) = increase_amount_for-run env id amount w w' h in
      (deposit_for_internal-Deposited env id amount 0 _ _ w w' run).votes

  pub increase_amount-votes :
      (id amount : ℕ) → increase_amount env id amount w ≡ done tt w' → w'.votes ≡ w.votes
  increase_amount-votes id amount h =
      let (open_, held, w₁, same, run) = increase_amount-run env id amount w w' h in
      votes_of same
      ∙ (deposit_for_internal-Deposited env id amount 0 _ _ (guarded true w) w₁ run).votes

  pub increase_unlock_time-votes :
      (id lock_duration : ℕ)
      → increase_unlock_time env id lock_duration w ≡ done tt w'
      → w'.votes ≡ w.votes
  increase_unlock_time-votes id lock_duration h =
      let (open_, held, w₁, same, run) = increase_unlock_time-run env id lock_duration w w' h in
      votes_of same ∙ (deposit_for_internal-Deposited env id 0 _ _ _ (guarded true w) w₁ run).votes
