-- ===== src/Calls/Overcount.antt =====
-- What all histories of calls, `merge` included, make of the supply.
use casper_ve_cep.Prelude.{ℕ, ◌+◌, ◌%◌, ◌^◌, ◌≡◌, [], ◌∷◌, arith, inl, inr, Text}
use casper_ve_cep.Exec.{done, failed, reverted, Outcome-cases}
use casper_ve_cep.Host.{Env, Key, get_immediate_caller_key}
use casper_ve_cep.Token.State.{Meta, init}
use casper_ve_cep.Escrow.State.{initialize}
use casper_ve_cep.Contract.World.{World, constructor}
use casper_ve_cep.Contract.Vault.{
  Vault, Move, rest, pay, open_lock, join_locks, move_vault, vault_of, total_paid,
}
use casper_ve_cep.Calls.Dispatch.{History, at, run, execute}
use casper_ve_cep.Calls.Refinement.{move_of, run-Moved}

-- The amount that a move joins to another lock.
unfoldable pub joined : Move → Vault → ℕ
joined (join_locks from to) v = v.locks from
joined _ v = 0

-- The sum of what the calls of a history that return have merged.
unfoldable pub merged_in : Env → History → World → ℕ
merged_in env [] w = 0
merged_in env ((c, call) ∷ h) w = elim (run (at env c) call w) [
  | done v w' ↦ joined (move_of call) (vault_of w) + merged_in env h w'
  | failed e w' ↦ merged_in env h w
  | reverted r ↦ merged_in env h w
]

move_vault-joined :
    (m : Move) (v : Vault) (x : ℕ)
    → v.supply ≡ (v.paid + x) % 2 ^ 128
    → (move_vault m v).supply ≡ ((move_vault m v).paid + (x + joined m v)) % 2 ^ 128
unfolding move_vault joined
move_vault-joined rest v x e = omega (arith, e)
move_vault-joined (pay id value) v x e = omega (arith, e)
move_vault-joined (open_lock value) v x e = omega (arith, e)
move_vault-joined (join_locks from to) v x e = omega (arith, e)

execute-merged_in :
    (env : Env) (h : History) (w : World) (x : ℕ)
    → (vault_of w).supply ≡ ((vault_of w).paid + x) % 2 ^ 128
    → (vault_of (execute env h w)).supply
      ≡ ((vault_of (execute env h w)).paid + (x + merged_in env h w)) % 2 ^ 128
unfolding execute merged_in
execute-merged_in env [] w x e = omega (arith, e)
execute-merged_in env ((c, call) ∷ h) w x e = elim (Outcome-cases (run (at env c) call w)) [
  | inl (v, w', ran) ↦
      let m = run-Moved (at env c) w w' call ran in
      let next =
        execute-merged_in env h w' (x + joined (move_of call) (vault_of w))
          (rw m.vault (move_vault-joined (move_of call) (vault_of w) x e)) in
      rw (execute, merged_in, ran) (omega (arith, next))
  | inr (inl (b, w', ran)) ↦ rw (execute, merged_in, ran) (execute-merged_in env h w x e)
  | inr (inr (r, ran)) ↦ rw (execute, merged_in, ran) (execute-merged_in env h w x e)
]

-- From the installation of the contract, with no payment recorded before it, after any history of
-- calls by anyone at any times, `merge` included: the supply is the sum of all payments and of all
-- amounts that were merged, modulo 2 ^ 128, so that each merge counts its amount once more.
pub histories-merged_in :
    (env : Env) (name symbol : Text) (meta : Meta) (token_contract art_proxy : Key)
    (before installed : World)
    → before.transfers ≡ []
    → constructor env name symbol meta token_contract art_proxy before ≡ done tt installed
    → (h : History)
    → (vault_of (execute env h installed)).supply
      ≡ ((vault_of (execute env h installed)).paid + merged_in env h installed) % 2 ^ 128
unfolding constructor get_immediate_caller_key initialize init vault_of total_paid
histories-merged_in env name symbol meta token_contract art_proxy before installed none_paid start
      h =
    let total = execute-merged_in env h installed 0 (ground arith) in omega (arith, total)
