-- ===== src/Contract/Taken.antt =====
-- `_create_lock` names a new token by the total supply, which a burn lowers.
use casper_ve_cep.Prelude.{ℕ, ◌^◌, ◌≤◌, ◌<◌, ◌≡◌, ◌≢◌, refl, some, [], ◌∷◌, arith, add_u64}
use casper_ve_cep.Errors.{error_code, token_id_already_exists}
use casper_ve_cep.Exec.{done, failed, reverted, user, narrow}
use casper_ve_cep.Host.{Env, Key, stored_contract, get_last_call_stack_item}
use casper_ve_cep.Host.Addresses.{NoCollision}
use casper_ve_cep.Token.State.{Token, TokenId, Meta, owners_get}
use casper_ve_cep.Token.Cep47.{mint, check_unminted, burn_internal}
use casper_ve_cep.Token.Cep47.Burn.{burn_internal-Reassigned}
use casper_ve_cep.Token.WellFormed.{IsWellFormed}
use casper_ve_cep.Escrow.State.{max_time}
use casper_ve_cep.Contract.World.{World}
use casper_ve_cep.Contract.Locks.{now, unlock_time_of, create_lock_internal}

module _ (env : Env) where
  mint-taken :
      (to : Key) (id : TokenId) (m : Meta) (s : Token) {k : Key}
      → owners_get env s id ≡ some k
      → mint env to (id ∷ []) (m ∷ []) s ≡ failed token_id_already_exists s
  unfolding mint check_unminted
  mint-taken to id m s e = ground arith

  create_lock_internal-taken :
      (value lock_duration : ℕ) (to : Key) (w : World) {k : Key}
      → 0 < value
      → now env < unlock_time_of (now env) lock_duration
      → unlock_time_of (now env) lock_duration ≤ add_u64 (now env) max_time
      → w.token.total_supply < 2 ^ 64
      → owners_get env w.token (add_u64 w.token.total_supply 1) ≡ some k
      → create_lock_internal env value lock_duration to w ≡ reverted (user 3)
  unfolding create_lock_internal narrow error_code
  create_lock_internal-taken value lock_duration to w p q r small e =
      let taken = mint-taken to (add_u64 w.token.total_supply 1) [] w.token e in ground arith

-- When the token numbered by the total supply has an owner, and another token is burnt, the next
-- `_create_lock` with a valid amount and duration is stopped with the code of
-- `TokenIdAlreadyExists`, whatever the rest of the storage holds.
pub burn-blocks_create :
    {env : Env} {InUse : Key → Type 0} (free : NoCollision env InUse) (k : Key) (p : InUse k)
    (id : TokenId) (s : Token) (w : World) (value lock_duration : ℕ) (to : Key) {holder : Key}
    {pkg contract : ℕ}
    → IsWellFormed env InUse s
    → owners_get env s id ≡ some k
    → owners_get env s s.total_supply ≡ some holder
    → id ≢ s.total_supply
    → 0 < s.total_supply
    → s.total_supply < 2 ^ 64
    → get_last_call_stack_item env ≡ some (stored_contract pkg contract)
    → 0 < value
    → now env < unlock_time_of (now env) lock_duration
    → unlock_time_of (now env) lock_duration ≤ add_u64 (now env) max_time
    → (s' : Token) × (burn_internal env k (id ∷ []) s ≡ done tt s')
      × (create_lock_internal env value lock_duration to (record w { token = s' })
          ≡ reverted (user 3))
burn-blocks_create {env} free k p id s w value lock_duration to {holder} w₀ owned last_owned other
      some_supply small stack a b c =
    let (s', run, given, total, supply, events) =
      burn_internal-Reassigned free k p (id ∷ []) s w₀ (owned, tt) (refl, tt) (omega arith) stack in
    let numbered : add_u64 s'.total_supply 1 ≡ s.total_supply = omega arith in
    let kept = given.owners s.total_supply in
    let still : owners_get env s' s.total_supply ≡ some holder = ground arith in
    (
      s',
      run,
      create_lock_internal-taken env value lock_duration to (record w { token = s' }) {k = holder} a
          b c (omega arith) (rw numbered still),
    )
