-- ===== src/Contract/Tokens.antt =====
-- What the calls of ve/src/vedata.rs that deposit, mint or merge do to the token, and the guard
-- after a merge.
use casper_ve_cep.Prelude.{
  ℕ, ◌≡◌, ◌∙◌, ap, sym, true, some, [], ◌∷◌, List, arith, add_u64, inl, inr, Option-cases,
}
use casper_ve_cep.Exec.{done, Outcome-cases}
use casper_ve_cep.Host.{Env, Key, immediate_caller}
use casper_ve_cep.Token.State.{Token, TokenId}
use casper_ve_cep.Token.Cep47.{mint, burn, owner_of}
use casper_ve_cep.Escrow.State.{
  Escrow, get_locked_balance, default_lock, current_block_number, merge_type,
}
use casper_ve_cep.Escrow.CheckPoint.Frame.{is_locked-check_point}
use casper_ve_cep.Contract.World.{World}
use casper_ve_cep.Contract.Locks.{
  now, deposit_for, increase_amount_for, increase_amount, increase_unlock_time, put_lock,
  create_lock_internal, create_lock_for, create_lock, burn_nft, merge, require_approved_or_owner,
}
use casper_ve_cep.Contract.Deposits.{deposit_for_internal-Deposited}
use casper_ve_cep.Contract.Guard.{require_approved_or_owner-frame}
use casper_ve_cep.Contract.Create.{create_lock_internal-deposit, create_lock_internal-tests}
use casper_ve_cep.Contract.Entry.{guarded, create_lock-run, create_lock_for-run}
use casper_ve_cep.Contract.Merge.{merge-parts, burn_nft-frame}
use casper_ve_cep.Contract.Moves.{
  deposit_for-run, increase_amount_for-run, increase_amount-run, increase_unlock_time-run,
}

token_of : {w w₁ : World} → w ≡ w₁ → w.token ≡ w₁.token
token_of e = ap (λ (w : World). w.token) e

module _ (env : Env) (w w' : World) where
  pub deposit_for-token :
      (id amount : ℕ) → deposit_for env id amount w ≡ done tt w' → w'.token ≡ w.token
  deposit_for-token id amount h =
      let (held, run) = deposit_for-run env id amount w w' h in
      (deposit_for_internal-Deposited env id amount 0 _ _ w w' run).token

  pub increase_amount_for-token :
      (id amount : ℕ) → increase_amount_for env id amount w ≡ done tt w' → w'.token ≡ w.token
  increase_amount_for-token id amount h =
      let (held, run) = increase_amount_for-run env id amount w w' h in
      (deposit_for_internal-Deposited env id amount 0 _ _ w w' run).token

  pub increase_amount-token :
      (id amount : ℕ) → increase_amount env id amount w ≡ done tt w' → w'.token ≡ w.token
  increase_amount-token id amount h =
      let (open_, held, w₁, same, run) = increase_amount-run env id amount w w' h in
      token_of same
      ∙ (deposit_for_internal-Deposited env id amount 0 _ _ (guarded true w) w₁ run).token

  pub increase_unlock_time-token :
      (id lock_duration : ℕ)
      → increase_unlock_time env id lock_duration w ≡ done tt w'
      → w'.token ≡ w.token
  increase_unlock_time-token id lock_duration h =
      let (open_, held, w₁, same, run) = increase_unlock_time-run env id lock_duration w w' h in
      token_of same ∙ (deposit_for_internal-Deposited env id 0 _ _ _ (guarded true w) w₁ run).token

-- A token numbered after the total supply has been minted for `to`.
abbrev pub Minted : Env → Key → Token → Token → Type 0
Minted env to s s' =
    (ids : List TokenId) × (mint env to (add_u64 s.total_supply 1 ∷ []) ([] ∷ []) s ≡ done ids s')

module _ (env : Env) where
  create_lock_internal-Minted :
      (value lock_duration id : ℕ) (to : Key) (w w' : World)
      → create_lock_internal env value lock_duration to w ≡ done id w'
      → Minted env to w.token w'.token
  create_lock_internal-Minted value lock_duration id to w w' h =
      let (p, q, r, named) = create_lock_internal-tests env value lock_duration to id w w' h in
      let (ids, w₁, minted, same, before, entered, run) =
        create_lock_internal-deposit env value lock_duration to id w w' h in
      let d = deposit_for_internal-Deposited env id value _ _ _ w₁ w' run in
      (ids, rw (← named) (minted ∙ ap (done ids) (sym d.token)))

  pub create_lock-Minted :
      (amount lock_duration : ℕ) (w w' : World)
      → create_lock env amount lock_duration w ≡ done tt w'
      → (caller : Key) × (immediate_caller env ≡ some caller) × Minted env caller w.token w'.token
  create_lock-Minted amount lock_duration w w' h =
      let (open_, caller, called, id, w₁, same, run) =
        create_lock-run env amount lock_duration w w' h in
      (
        caller,
        called,
        rw same
            (create_lock_internal-Minted amount lock_duration id caller (guarded true w) w₁ run),
      )

  pub create_lock_for-Minted :
      (amount lock_duration : ℕ) (to : Key) (w w' : World)
      → create_lock_for env amount lock_duration to w ≡ done tt w'
      → Minted env to w.token w'.token
  create_lock_for-Minted amount lock_duration to w w' h =
      let (open_, id, w₁, same, run) = create_lock_for-run env amount lock_duration to w w' h in
      rw same (create_lock_internal-Minted amount lock_duration id to (guarded true w) w₁ run)

  burn_nft-burn :
      (id : ℕ) (w w' : World)
      → burn_nft env id w ≡ done tt w'
      → (owner : Key) × (owner_of env w.token id ≡ some owner)
        × (burn env owner (id ∷ []) w.token ≡ done tt w'.token)
  unfolding burn_nft
  burn_nft-burn id w w' h = elim (Outcome-cases (require_approved_or_owner env id w)) [
    | inr (inl (e, t, bad)) ↦ absurd (ground arith)
    | inr (inr (f, bad)) ↦ absurd (ground arith)
    | inl (u, w₀, passed) ↦
        let same = require_approved_or_owner-frame env id w w₀ passed in
        elim (Option-cases (owner_of env w.token id)) [
          | inl missing ↦ absurd (ground arith)
          | inr (owner, found) ↦ elim (Outcome-cases (burn env owner (id ∷ []) w.token)) [
            | inr (inl (e, t, bad)) ↦ absurd (ground arith)
            | inr (inr (f, bad)) ↦ absurd (ground arith)
            | inl (v, t, burnt) ↦ (owner, found, ground arith)
          ]
        ]
  ]

  -- A merge burns the first token for its owner, and leaves the guard.
  pub merge-burn :
      (from to : ℕ) (w w' : World)
      → merge env from to w ≡ done tt w'
      → (owner : Key) × (owner_of env w.token from ≡ some owner)
        × (burn env owner (from ∷ []) w.token ≡ done tt w'.token)
        × (w'.escrow.is_locked ≡ w.escrow.is_locked)
  merge-burn from to w w' h =
      let (distinct, w₁, run_burn, run) = merge-parts env from to w w' h in
      let d = deposit_for_internal-Deposited env to _ _ _ merge_type w₁ w' run in
      let (owner, owned, burnt) = burn_nft-burn from _ w₁ run_burn in
      let (same, before) = burn_nft-frame env from _ w₁ run_burn in
      (
        owner,
        owned,
        burnt ∙ ap (done tt) (sym d.token),
        d.guard
            ∙ ap (λ (e : Escrow). e.is_locked) same
            ∙ is_locked-check_point (now env) current_block_number from
                (get_locked_balance w.escrow from) default_lock
                (put_lock from default_lock w.escrow),
      )
