-- ===== src/Contract/Joined.antt =====
-- `merge` of ve/src/vedata.rs as a move of the vault.
use casper_ve_cep.Prelude.{ℕ, ◌≡◌, ap, arith}
use casper_ve_cep.Exec.{done}
use casper_ve_cep.Host.{Env}
use casper_ve_cep.Token.Single.{burn-counted}
use casper_ve_cep.Escrow.State.{merge_type}
use casper_ve_cep.Contract.World.{World}
use casper_ve_cep.Contract.Locks.{merge}
use casper_ve_cep.Contract.Deposits.{deposit_for_internal-Deposited}
use casper_ve_cep.Contract.Merge.{locks-emptied, merge-parts, burn_nft-frame, merge-supply}
use casper_ve_cep.Contract.Tokens.{merge-burn}
use casper_ve_cep.Contract.Vault.{join_locks, move_vault, vault_of, Vault-eq, Moved, total_paid}

module _ (env : Env) (w w' : World) where
  pub merge-Moved :
      (from to : ℕ) → merge env from to w ≡ done tt w' → Moved (join_locks from to) w w'
  unfolding vault_of move_vault
  merge-Moved from to h =
      let (distinct, w₁, run_burn, run) = merge-parts env from to w w' h in
      let d = deposit_for_internal-Deposited env to _ _ _ merge_type w₁ w' run in
      let (same, before) = burn_nft-frame env from _ w₁ run_burn in
      let (distinct', unpaid, supplied, merged, ended, lefts) = merge-supply env from to w w' h in
      let (owner, owned, burnt, guard) = merge-burn env from to w w' h in
      let counted = burn-counted env owner from w.token w'.token burnt in
      record {
        allowed = (distinct, omega (arith, counted));
        vault =
            Vault-eq (λ j. ground (arith, d.locks j, same, locks-emptied env from w.escrow j))
              supplied (omega (arith, counted)) (ap total_paid unpaid);
        guard = guard;
      }
