-- ===== src/Contract/Payments.antt =====
-- Where the payments of ve/src/vedata.rs go.
use casper_ve_cep.Prelude.{ℕ, ◌≡◌, true, some, List, [], ◌∷◌, ◌++◌, inl, inr}
use casper_ve_cep.Exec.{done}
use casper_ve_cep.Host.{Env, Key, self_key}
use casper_ve_cep.Escrow.State.{LockedBalance}
use casper_ve_cep.Contract.World.{World, TokenTransfer}
use casper_ve_cep.Contract.Locks.{
  deposit_for, increase_amount_for, increase_amount, increase_unlock_time, create_lock_internal,
  create_lock_for, create_lock,
}
use casper_ve_cep.Contract.Deposits.{Deposited, deposit_for_internal-Deposited}
use casper_ve_cep.Contract.Create.{create_lock_internal-Created}
use casper_ve_cep.Contract.Entry.{guarded, create_lock-run, create_lock_for-run}
use casper_ve_cep.Contract.Moves.{
  deposit_for-run, increase_amount_for-run, increase_amount-run, increase_unlock_time-run,
}

-- Every listed payment goes to `me`.
unfoldable pub IsPaidTo : Key → List TokenTransfer → Type 0
IsPaidTo me [] = Unit {0}
IsPaidTo me (t ∷ ts) = (t.recipient ≡ me) × IsPaidTo me ts

append-IsPaidTo :
    (me : Key) (ts : List TokenTransfer) (t : TokenTransfer)
    → IsPaidTo me ts
    → t.recipient ≡ me
    → IsPaidTo me (ts ++ t ∷ [])
unfolding IsPaidTo
append-IsPaidTo me [] t p e = (e, tt)
append-IsPaidTo me (x ∷ ts) t (q, p) e = (q, append-IsPaidTo me ts t p e)

module _ (env : Env) (me : Key) (self : self_key env ≡ some me) (w w' : World) where
  Deposited-IsPaidTo :
      {id value unlock_time deposit_type : ℕ} {l : LockedBalance}
      → IsPaidTo me w.transfers
      → Deposited env id value unlock_time l deposit_type w w'
      → IsPaidTo me w'.transfers
  Deposited-IsPaidTo p d = elim d.drawn [
    | inl (idle, still) ↦ rw still p
    | inr (due, from, recipient, called, self', moved) ↦
        let same : recipient ≡ me = cc in rw moved (append-IsPaidTo me w.transfers _ p same)
  ]

  pub deposit_for-IsPaidTo :
      (id amount : ℕ)
      → IsPaidTo me w.transfers
      → deposit_for env id amount w ≡ done tt w'
      → IsPaidTo me w'.transfers
  deposit_for-IsPaidTo id amount p h =
      let (held, run) = deposit_for-run env id amount w w' h in
      Deposited-IsPaidTo p (deposit_for_internal-Deposited env id amount 0 _ _ w w' run)

  pub increase_amount_for-IsPaidTo :
      (id amount : ℕ)
      → IsPaidTo me w.transfers
      → increase_amount_for env id amount w ≡ done tt w'
      → IsPaidTo me w'.transfers
  increase_amount_for-IsPaidTo id amount p h =
      let (held, run) = increase_amount_for-run env id amount w w' h in
      Deposited-IsPaidTo p (deposit_for_internal-Deposited env id amount 0 _ _ w w' run)

  create_lock_internal-IsPaidTo :
      (value lock_duration id : ℕ) (to : Key)
      → IsPaidTo me w.transfers
      → create_lock_internal env value lock_duration to w ≡ done id w'
      → IsPaidTo me w'.transfers
  create_lock_internal-IsPaidTo value lock_duration id to p h =
      let c = create_lock_internal-Created env value lock_duration to id w w' h in
      let (from, recipient, called, self', moved) = c.drawn in
      let same : recipient ≡ me = cc in rw moved (append-IsPaidTo me w.transfers _ p same)

module _ (env : Env) (me : Key) (self : self_key env ≡ some me) (w w' : World) where
  pub increase_amount-IsPaidTo :
      (id amount : ℕ)
      → IsPaidTo me w.transfers
      → increase_amount env id amount w ≡ done tt w'
      → IsPaidTo me w'.transfers
  increase_amount-IsPaidTo id amount p h =
      let (open_, held, w₁, same, run) = increase_amount-run env id amount w w' h in
      rw same (
        Deposited-IsPaidTo env me self (guarded true w) w₁ p
          (deposit_for_internal-Deposited env id amount 0 _ _ (guarded true w) w₁ run))

  pub increase_unlock_time-IsPaidTo :
      (id lock_duration : ℕ)
      → IsPaidTo me w.transfers
      → increase_unlock_time env id lock_duration w ≡ done tt w'
      → IsPaidTo me w'.transfers
  increase_unlock_time-IsPaidTo id lock_duration p h =
      let (open_, held, w₁, same, run) = increase_unlock_time-run env id lock_duration w w' h in
      rw same (
        Deposited-IsPaidTo env me self (guarded true w) w₁ p
          (deposit_for_internal-Deposited env id 0 _ _ _ (guarded true w) w₁ run))

  pub create_lock-IsPaidTo :
      (amount lock_duration : ℕ)
      → IsPaidTo me w.transfers
      → create_lock env amount lock_duration w ≡ done tt w'
      → IsPaidTo me w'.transfers
  create_lock-IsPaidTo amount lock_duration p h =
      let (open_, caller, called, id, w₁, same, run) =
        create_lock-run env amount lock_duration w w' h in
      rw same (
        create_lock_internal-IsPaidTo env me self (guarded true w) w₁ amount lock_duration id caller
          p run)

  pub create_lock_for-IsPaidTo :
      (amount lock_duration : ℕ) (to : Key)
      → IsPaidTo me w.transfers
      → create_lock_for env amount lock_duration to w ≡ done tt w'
      → IsPaidTo me w'.transfers
  create_lock_for-IsPaidTo amount lock_duration to p h =
      let (open_, id, w₁, same, run) = create_lock_for-run env amount lock_duration to w w' h in
      rw same (
        create_lock_internal-IsPaidTo env me self (guarded true w) w₁ amount lock_duration id to p
          run)
