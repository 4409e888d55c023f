-- ===== src/Calls/Funding.antt =====
-- What all merge-free histories of calls keep of the vault.
use casper_ve_cep.Prelude.{
  ℕ, zero, suc, ◌+◌, ◌%◌, ◌^◌, ◌≤◌, ◌<◌, ◌≡◌, refl, ◌∙◌, ap, false, [], ◌∷◌, arith, add_u64, length,
  inl, inr, Text,
}
use casper_ve_cep.Exec.{done, Outcome-cases}
use casper_ve_cep.Host.{Env, Key, get_immediate_caller_key}
use casper_ve_cep.Token.State.{Meta, init}
use casper_ve_cep.Escrow.State.{initialize}
use casper_ve_cep.Contract.World.{World, constructor}
use casper_ve_cep.Contract.Vault.{
  Vault, Move, rest, pay, open_lock, join_locks, is_join, move_vault, vault_of, grown, IsAllowed,
  total_paid,
}
use casper_ve_cep.Calls.Dispatch.{History, at, run, execute}
use casper_ve_cep.Calls.Refinement.{is_merge, move_of-is_join, run-Moved}

-- What the first tokens have locked together.
unfoldable pub total_locked : (ℕ → ℕ) → ℕ → ℕ
total_locked locks zero = locks 0
total_locked locks (suc n) = locks (suc n) + total_locked locks n

-- The supply and the locks of the numbered tokens each account for every payment, in the 128 bits
-- that they are kept in, and no other lock holds anything.
pub record IsFunded (v : Vault) : Type 0 where
  pub supply : v.supply ≡ v.paid % 2 ^ 128
  pub locked : total_locked v.locks v.count % 2 ^ 128 ≡ v.paid % 2 ^ 128
  pub empty : (id : ℕ) → v.count < id → v.locks id ≡ 0

module _ (id value : ℕ) (locks : ℕ → ℕ) where
  total_locked-outside :
      (n : ℕ) → n < id → total_locked (grown id value locks) n ≡ total_locked locks n
  unfolding total_locked
  total_locked-outside zero p = ground arith
  total_locked-outside (suc n) p = ground (arith, total_locked-outside n)

  total_locked-grown :
      (n : ℕ)
      → id ≤ n
      → total_locked (grown id value locks) n % 2 ^ 128 ≡ (total_locked locks n + value) % 2 ^ 128
  unfolding total_locked
  total_locked-grown zero p = ground arith
  total_locked-grown (suc n) p = ground (arith, total_locked-grown n, total_locked-outside n)

pay-IsFunded :
    (id value : ℕ) (v : Vault)
    → IsFunded v
    → 0 < v.locks id
    → IsFunded (move_vault (pay id value) v)
unfolding move_vault
pay-IsFunded id value v f held = record {
  supply = omega (arith, f.supply);
  locked =
      let within : id ≤ v.count = ground (arith, f.empty id) in
      omega (arith, f.locked, total_locked-grown id value v.locks v.count within);
  empty = λ j out. ground (arith, f.empty j);
}

total_locked-next :
    (value n paid : ℕ) (locks : ℕ → ℕ)
    → total_locked locks n % 2 ^ 128 ≡ paid % 2 ^ 128
    → locks (suc n) ≡ 0
    → n + 1 < 2 ^ 64
    → total_locked (grown (add_u64 n 1) value locks) (n + 1) % 2 ^ 128 ≡ (paid + value) % 2 ^ 128
unfolding total_locked
total_locked-next value n paid locks f none_yet small =
    let same : add_u64 n 1 ≡ suc n = omega arith in
    let next : n + 1 ≡ suc n = omega arith in
    let sum = total_locked-grown (suc n) value locks (suc n) (omega arith) in
    let one_more : total_locked locks (suc n) ≡ locks (suc n) + total_locked locks n = refl in
    rw (same, next) (sum ∙ omega (arith, f, none_yet, one_more))

open_lock-IsFunded :
    (value : ℕ) (v : Vault)
    → IsFunded v
    → v.count + 1 < 2 ^ 64
    → IsFunded (move_vault (open_lock value) v)
unfolding move_vault
open_lock-IsFunded value v f small = record {
  supply = omega (arith, f.supply);
  locked =
      total_locked-next value v.count v.paid v.locks f.locked (f.empty (suc v.count) (omega arith))
        small;
  empty = λ j out. ground (arith, f.empty j);
}

-- Every move that the vault allows keeps it funded, save the joining of locks.
move_vault-IsFunded :
    (m : Move) (v : Vault)
    → IsFunded v
    → IsAllowed m v
    → is_join m ≡ false
    → v.count + 1 < 2 ^ 64
    → IsFunded (move_vault m v) × ((move_vault m v).count ≤ v.count + 1)
unfolding move_vault
move_vault-IsFunded rest v f a q small = (f, omega arith)
move_vault-IsFunded (pay id value) v f a q small = (pay-IsFunded id value v f a, omega arith)
move_vault-IsFunded (open_lock value) v f a q small =
    (open_lock-IsFunded value v f small, omega arith)
move_vault-IsFunded (join_locks from to) v f a q small = cc

-- No call of the history is a `merge`.
abbrev pub IsMergeFree : History → Type 0
IsMergeFree [] = Unit {0}
IsMergeFree ((c, call) ∷ h) = (is_merge call ≡ false) × IsMergeFree h

execute-IsFunded :
    (env : Env) (h : History) (w : World)
    → IsMergeFree h
    → IsFunded (vault_of w)
    → (vault_of w).count + length h < 2 ^ 64
    → IsFunded (vault_of (execute env h w))
unfolding execute
execute-IsFunded env [] w free f small = f
execute-IsFunded env ((c, call) ∷ h) w (first, free) f small =
    elim (Outcome-cases (run (at env c) call w)) [
      | inl (v, w', e) ↦
          let m = run-Moved (at env c) w w' call e in
          let (kept, counted) =
            move_vault-IsFunded _ (vault_of w) f m.allowed (move_of-is_join call ∙ first)
              (omega arith) in
          rw (execute, e)
            (execute-IsFunded env h w' free (rw m.vault kept)
              (omega (arith, ap (λ (u : Vault). u.count) m.vault)))
      | inr (inl (x, w', e)) ↦ rw (execute, e) (execute-IsFunded env h w free f (omega arith))
      | inr (inr (r, e)) ↦ rw (execute, e) (execute-IsFunded env h w free f (omega arith))
    ]

-- From the installation of the contract, with no payment recorded before it, after any history of
-- fewer than 2 ^ 64 calls by anyone at any times, none of which is `merge`: the supply and the sum of
-- what tokens number 0 to the total supply have locked both equal the sum of all payments, modulo
-- 2 ^ 128, and no other token has anything locked.
pub histories-IsFunded :
    (env : Env) (name symbol : Text) (meta : Meta) (token_contract art_proxy : Key)
    (before installed : World)
    → before.transfers ≡ []
    → constructor env name symbol meta token_contract art_proxy before ≡ done tt installed
    → (h : History) → IsMergeFree h
    → length h < 2 ^ 64
    → IsFunded (vault_of (execute env h installed))
unfolding constructor get_immediate_caller_key initialize init vault_of total_paid total_locked
histories-IsFunded env name symbol meta token_contract art_proxy before installed none_paid c h free
      short =
    execute-IsFunded env h installed free
      (record { supply = ground arith; locked = ground arith; empty = λ id out. ground arith })
      (ground arith)
