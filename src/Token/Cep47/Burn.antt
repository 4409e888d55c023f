-- ===== src/Token/Cep47/Burn.antt =====
-- `burn_internal` and `burn` of ve/src/cep47.rs.
use casper_ve_cep.Prelude.{
  ℕ, ◌+◌, ◌-◌, ◌≤◌, ◌≡◌, refl, ◌∙◌, true, none, some, List, [], ◌∷◌, ◌++◌, length, ◌==◌, arith,
  if◌then◌else◌,
}
use casper_ve_cep.Exec.{done, >>=-eq_done}
use casper_ve_cep.Host.{Env, Key, remove, stored_contract, get_last_call_stack_item}
use casper_ve_cep.Host.Addresses.{NoCollision, text_eq-id, key_eq_refl}
use casper_ve_cep.Token.OwnedTokens.{OwnedTokens, remove_token}
use casper_ve_cep.Token.OwnedTokens.Effects.{balance}
use casper_ve_cep.Token.OwnedTokens.Enumeration.{holds, Lost, balance_pos, remove_token-Lost}
use casper_ve_cep.Token.State.{
  Token, TokenId, owners_get, burn_event, event_params, emit, allowance_key,
}
use casper_ve_cep.Token.Cep47.{check_owner, burn_all, burn_internal}
use casper_ve_cep.Token.WellFormed.{AllOwned-frame, IsWellFormed, IsDistinct, AllOwned, Reassigned}

abbrev pub burnt : Env → Key → TokenId → OwnedTokens → Token → Token
burnt env k id o s = record s {
  owners = remove s.owners (env.u256_to_string id);
  metadata = remove s.metadata (env.u256_to_string id);
  allowances = remove s.allowances (allowance_key env k id);
  owned = o;
}

pub burn_all-step :
    (env : Env) (k : Key) (id : TokenId) (rest : List TokenId) (s : Token) (o : OwnedTokens)
    → remove_token env k id s.owned ≡ done tt o
    → burn_all env k (id ∷ rest) s ≡ burn_all env k rest (burnt env k id o s)
unfolding burn_all
burn_all-step env k id rest s o e = ground arith

-- The check of `burn_internal` and `transfer_from_internal` passes where all tokens are the owner's.
pub check_owner-eq_done :
    (env : Env) (k : Key) (s : Token) (ids : List TokenId)
    → AllOwned env s (some k) ids
    → check_owner env k ids s ≡ done tt s
unfolding check_owner
check_owner-eq_done env k s [] h = refl
check_owner-eq_done env k s (id ∷ ids) h =
    ground (arith, key_eq_refl k, check_owner-eq_done env k s ids h.1)

module _ {env : Env} {InUse : Key → Type 0} (free : NoCollision env InUse) (k : Key)
    (p : InUse k) where
  pub burnt-owners :
      (id : TokenId) (s : Token) (o : OwnedTokens) (v : TokenId)
      → owners_get env (burnt env k id o s) v ≡ (if id == v then none else owners_get env s v)
  burnt-owners id s o v = ground (arith, text_eq-id free id v)

  pub burnt-IsWellFormed :
      (id : TokenId) (s : Token) (o : OwnedTokens)
      → IsWellFormed env InUse s
      → owners_get env s id ≡ some k
      → Lost env InUse k id s.owned o
      → IsWellFormed env InUse (burnt env k id o s)
  burnt-IsWellFormed id s o w had g = record {
    enumerated = g.enumerated;
    agree = λ j v q. ground (arith, g.holding j v q, w.agree j v q, text_eq-id free id v);
    owner_in_use = λ v j e. w.owner_in_use v j (ground (arith, text_eq-id free id v));
  }

  burn_all-Reassigned :
      (ids : List TokenId) (s : Token)
      → IsWellFormed env InUse s
      → AllOwned env s (some k) ids
      → IsDistinct ids
      → (s' : Token) × (burn_all env k ids s ≡ done tt s')
        × Reassigned env InUse none ids s s'
        × (balance env s'.owned k + length ids ≡ balance env s.owned k)
        × (s'.total_supply ≡ s.total_supply)
        × (s'.events ≡ s.events)
  unfolding burn_all
  burn_all-Reassigned [] s w owned distinct =
      (s, refl, record { valid = w; owners = λ v. refl }, omega arith, refl, refl)
  burn_all-Reassigned (id ∷ ids) s w owned distinct =
      let held : holds env s.owned k id ≡ true = rw (w.agree k id p, owned.0) (key_eq_refl k) in
      let (o, e, g) = remove_token-Lost free k id s.owned p w.enumerated held in
      let some_left = balance_pos k id s.owned p w.enumerated held in
      let s₁ = burnt env k id o s in
      let frame = burnt-owners id s o in
      let shrunk = g.balances k p in
      let (s', run, given, total, supply, events) =
        burn_all-Reassigned ids s₁ (burnt-IsWellFormed id s o w owned.0 g)
          (AllOwned-frame env s s₁ id none (some k) ids frame distinct.0 owned.1) distinct.1 in
      (
        s',
        burn_all-step env k id ids s o e ∙ run,
        record { valid = given.valid; owners = λ v. ground (arith, given.owners v, frame v) },
        ground (arith, key_eq_refl k),
        supply,
        events,
      )

module _ (env : Env) where
  burn_internal-eq_done :
      (k : Key) (ids : List TokenId) (s s₁ : Token) {pkg contract : ℕ}
      → check_owner env k ids s ≡ done tt s
      → burn_all env k ids s ≡ done tt s₁
      → length ids ≤ s₁.total_supply
      → get_last_call_stack_item env ≡ some (stored_contract pkg contract)
      → burn_internal env k ids s
        ≡ done tt (record s₁ {
          total_supply = s₁.total_supply - length ids;
          events = s₁.events ++ event_params env (env.package_to_string pkg) (burn_event k ids);
        })
  unfolding burn_internal emit
  burn_internal-eq_done k ids s s₁ checked run room stack =
      >>=-eq_done (check_owner env k ids) _ s checked
      ∙ (>>=-eq_done (burn_all env k ids) _ s run ∙ ground arith)

module _ {env : Env} {InUse : Key → Type 0} (free : NoCollision env InUse) (k : Key)
    (p : InUse k) where
  -- In a well-formed storage `burn_internal` of distinct tokens of the owner, where the total supply
  -- counts at least as many and the contract runs as a stored contract, succeeds: the tokens have no
  -- owner any more, no other token changes its owner, the owner's balance and the total supply fall
  -- by their number, one event for each is recorded, and the storage stays well-formed.
  pub burn_internal-Reassigned :
      (ids : List TokenId) (s : Token) {pkg contract : ℕ}
      → IsWellFormed env InUse s
      → AllOwned env s (some k) ids
      → IsDistinct ids
      → length ids ≤ s.total_supply
      → get_last_call_stack_item env ≡ some (stored_contract pkg contract)
      → (s' : Token) × (burn_internal env k ids s ≡ done tt s')
        × Reassigned env InUse none ids s s'
        × (balance env s'.owned k + length ids ≡ balance env s.owned k)
        × (s'.total_supply + length ids ≡ s.total_supply)
        × (s'.events ≡ s.events ++ event_params env (env.package_to_string pkg) (burn_event k ids))
  burn_internal-Reassigned ids s {pkg} w owned distinct room stack =
      let (s₁, run, given, total, supply, events) =
        burn_all-Reassigned free k p ids s w owned distinct in
      let s₂ = record s₁ {
        total_supply = s₁.total_supply - length ids;
        events = s₁.events ++ event_params env (env.package_to_string pkg) (burn_event k ids);
      } in
      (
        s₂,
        burn_internal-eq_done env k ids s s₁ (check_owner-eq_done env k s ids owned) run
            (omega arith) stack,
        record {
          valid = record {
            enumerated = given.valid.enumerated;
            agree = given.valid.agree;
            owner_in_use = given.valid.owner_in_use;
          };
          owners = given.owners;
        },
        total,
        omega arith,
        rw events refl,
      )
