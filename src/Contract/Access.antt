-- ===== src/Contract/Access.antt =====
-- Who changes what belongs to the team and to the voter (ve/src/vedata.rs).
use casper_ve_cep.Prelude.{ℕ, ◌≡◌, ◌∙◌, ap, Bool, true, false, none, some}
use casper_ve_cep.Exec.{done}
use casper_ve_cep.Host.{Env, Key, key_eq, immediate_caller}
use casper_ve_cep.Escrow.State.{Escrow, default_lock, get_locked_balance, current_block_number}
use casper_ve_cep.Escrow.CheckPoint.Frame.{Roles, roles_of, roles-check_point}
use casper_ve_cep.Contract.World.{World}
use casper_ve_cep.Contract.Locks.{
  now, put_lock, deposit_for, increase_amount_for, increase_amount, increase_unlock_time,
  create_lock_internal, create_lock_for, create_lock, merge,
}
use casper_ve_cep.Contract.Deposits.{deposit_for_internal-Deposited}
use casper_ve_cep.Contract.Create.{create_lock_internal-deposit}
use casper_ve_cep.Contract.Entry.{guarded, create_lock-run, create_lock_for-run}
use casper_ve_cep.Contract.Merge.{merge-parts, burn_nft-frame}
use casper_ve_cep.Contract.Moves.{
  deposit_for-run, increase_amount_for-run, increase_amount-run, increase_unlock_time-run,
}

-- The immediate caller is `k`.
abbrev pub called_by : Env → Key → Bool
called_by env k = elim (immediate_caller env) [ none ↦ false | some caller ↦ key_eq caller k ]

-- The storage keeps what is the team's, and what is the voter's.
abbrev pub TeamKept : Escrow → Escrow → Type 0
TeamKept e e' = (e'.team ≡ e.team) × (e'.art_proxy_contract ≡ e.art_proxy_contract)

abbrev pub VoterKept : Escrow → Escrow → Type 0
VoterKept e e' = (e'.voter ≡ e.voter) × (e'.voted ≡ e.voted) × (e'.attachments ≡ e.attachments)

pub team-kept : (e e' : Escrow) → roles_of e' ≡ roles_of e → TeamKept e e'
team-kept e e' same =
    (ap (λ (r : Roles). r.team) same, ap (λ (r : Roles). r.art_proxy_contract) same)

pub voter-kept : (e e' : Escrow) → roles_of e' ≡ roles_of e → VoterKept e e'
voter-kept e e' same = (
  ap (λ (r : Roles). r.voter) same,
  ap (λ (r : Roles). r.voted) same,
  ap (λ (r : Roles). r.attachments) same,
)

-- What belongs to them stands in every call that moves locks.
module _ (env : Env) (w w' : World) where
  pub deposit_for-roles :
      (id amount : ℕ)
      → deposit_for env id amount w ≡ done tt w'
      → roles_of w'.escrow ≡ roles_of w.escrow
  deposit_for-roles id amount h =
      let (held, run) = deposit_for-run env id amount w w' h in
      (deposit_for_internal-Deposited env id amount 0 _ _ w w' run).roles

  pub increase_amount_for-roles :
      (id amount : ℕ)
      → increase_amount_for env id amount w ≡ done tt w'
      → roles_of w'.escrow ≡ roles_of w.escrow
  increase_amount_for-roles id amount h =
      let (held, run) = increase_amount_for-run env id amount w w' h in
      (deposit_for_internal-Deposited env id amount 0 _ _ w w' run).roles

  pub increase_amount-roles :
      (id amount : ℕ)
      → increase_amount env id amount w ≡ done tt w'
      → roles_of w'.escrow ≡ roles_of w.escrow
  increase_amount-roles id amount h =
      let (open_, held, w₁, same, run) = increase_amount-run env id amount w w' h in
      rw same (deposit_for_internal-Deposited env id amount 0 _ _ (guarded true w) w₁ run).roles

  pub increase_unlock_time-roles :
      (id lock_duration : ℕ)
      → increase_unlock_time env id lock_duration w ≡ done tt w'
      → roles_of w'.escrow ≡ roles_of w.escrow
  increase_unlock_time-roles id lock_duration h =
      let (open_, held, w₁, same, run) = increase_unlock_time-run env id lock_duration w w' h in
      rw same (deposit_for_internal-Deposited env id 0 _ _ _ (guarded true w) w₁ run).roles

  create_lock_internal-roles :
      (value lock_duration id : ℕ) (to : Key)
      → create_lock_internal env value lock_duration to w ≡ done id w'
      → roles_of w'.escrow ≡ roles_of w.escrow
  create_lock_internal-roles value lock_duration id to h =
      let (ids, w₁, minted, same, before, entered, run) =
        create_lock_internal-deposit env value lock_duration to id w w' h in
      (deposit_for_internal-Deposited env id value _ _ _ w₁ w' run).roles ∙ ap roles_of same

  pub merge-roles :
      (from to : ℕ) → merge env from to w ≡ done tt w' → roles_of w'.escrow ≡ roles_of w.escrow
  merge-roles from to h =
      let (distinct, w₁, burnt, run) = merge-parts env from to w w' h in
      let (same, before) = burn_nft-frame env from _ w₁ burnt in
      (deposit_for_internal-Deposited env to _ _ _ _ w₁ w' run).roles
      ∙ ap roles_of same
      ∙ roles-check_point (now env) current_block_number from (get_locked_balance w.escrow from)
          default_lock (put_lock from default_lock w.escrow)

module _ (env : Env) (w w' : World) where
  pub create_lock-roles :
      (amount lock_duration : ℕ)
      → create_lock env amount lock_duration w ≡ done tt w'
      → roles_of w'.escrow ≡ roles_of w.escrow
  create_lock-roles amount lock_duration h =
      let (open_, caller, called, id, w₁, same, run) =
        create_lock-run env amount lock_duration w w' h in
      rw same
        (create_lock_internal-roles env (guarded true w) w₁ amount lock_duration id caller run)

  pub create_lock_for-roles :
      (amount lock_duration : ℕ) (to : Key)
      → create_lock_for env amount lock_duration to w ≡ done tt w'
      → roles_of w'.escrow ≡ roles_of w.escrow
  create_lock_for-roles amount lock_duration to h =
      let (open_, id, w₁, same, run) = create_lock_for-run env amount lock_duration to w w' h in
      rw same (create_lock_internal-roles env (guarded true w) w₁ amount lock_duration id to run)
