-- ===== src/Token/Cep47/Transfer.antt =====
-- `transfer_from_internal` and `transfer_from` of ve/src/cep47.rs.
use casper_ve_cep.Prelude.{
  ℕ, ◌+◌, ◌^◌, ◌<◌, ◌≡◌, refl, ◌∙◌, true, false, some, List, [], ◌∷◌, ◌++◌, length, ◌==◌, arith,
  if◌then◌else◌, Bool-cases, inl, inr, subst,
}
use casper_ve_cep.Exec.{done, >>=-eq_done}
use casper_ve_cep.Host.{
  Env, Key, set, stored_contract, get_last_call_stack_item, immediate_caller,
  get_immediate_caller_key,
}
use casper_ve_cep.Host.Addresses.{NoCollision, text_eq-id, key_eq_sound, key_eq_refl}
use casper_ve_cep.Token.OwnedTokens.{OwnedTokens, remove_token, set_token}
use casper_ve_cep.Token.OwnedTokens.Effects.{balance}
use casper_ve_cep.Token.OwnedTokens.Enumeration.{
  holds, Lost, Gained, remove_token-Lost, set_token-Gained,
}
use casper_ve_cep.Token.State.{Token, TokenId, owners_get, transfer_event, event_params, emit}
use casper_ve_cep.Token.Cep47.{
  check_owner, transfer_all, transfer_from_internal, transfer_from, transfer,
}
use casper_ve_cep.Token.Cep47.Burn.{check_owner-eq_done}
use casper_ve_cep.Token.WellFormed.{AllOwned-frame, IsWellFormed, IsDistinct, AllOwned, Reassigned}

abbrev pub handed : Env → Key → TokenId → OwnedTokens → Token → Token
handed env r id o s = record s { owners = set s.owners (env.u256_to_string id) r; owned = o }

pub transfer_all-step :
    (env : Env) (k r : Key) (id : TokenId) (rest : List TokenId) (s : Token) (o₁ o₂ : OwnedTokens)
    → remove_token env k id s.owned ≡ done tt o₁
    → set_token env r id o₁ ≡ done tt o₂
    → transfer_all env k r (id ∷ rest) s ≡ transfer_all env k r rest (handed env r id o₂ s)
unfolding transfer_all
transfer_all-step env k r id rest s o₁ o₂ e₁ e₂ = ground arith

module _ {env : Env} {InUse : Key → Type 0} (free : NoCollision env InUse) (k r : Key) (p : InUse k)
    (q : InUse r) where
  pub handed-owners :
      (id : TokenId) (s : Token) (o : OwnedTokens) (v : TokenId)
      → owners_get env (handed env r id o s) v ≡ (if id == v then some r else owners_get env s v)
  handed-owners id s o v = ground (arith, text_eq-id free id v)

  pub handed-IsWellFormed :
      (id : TokenId) (s : Token) (o₁ o₂ : OwnedTokens)
      → IsWellFormed env InUse s
      → owners_get env s id ≡ some k
      → Lost env InUse k id s.owned o₁
      → Gained env InUse r id o₁ o₂
      → IsWellFormed env InUse (handed env r id o₂ s)
  handed-IsWellFormed id s o₁ o₂ w had l g = record {
    enumerated = g.enumerated;
    agree = λ j v u.
        ground (arith, g.holding j v u, l.holding j v u, w.agree j v u, text_eq-id free id v);
    owner_in_use = λ v j e. elim (Bool-cases (id == v)) [
      | inl here ↦ let same : r ≡ j = ground (arith, text_eq-id free id v) in subst InUse same q
      | inr there ↦ w.owner_in_use v j (ground (arith, text_eq-id free id v))
    ];
  }

  transfer_all-Reassigned :
      (ids : List TokenId) (s : Token)
      → IsWellFormed env InUse s
      → AllOwned env s (some k) ids
      → IsDistinct ids
      → balance env s.owned r + length ids < 2 ^ 256
      → (s' : Token) × (transfer_all env k r ids s ≡ done tt s')
        × Reassigned env InUse (some r) ids s s'
        × (s'.total_supply ≡ s.total_supply)
        × (s'.events ≡ s.events)
  unfolding transfer_all
  transfer_all-Reassigned [] s w owned distinct room =
      (s, refl, record { valid = w; owners = λ v. refl }, refl, refl)
  transfer_all-Reassigned (id ∷ ids) s w owned distinct room =
      let held : holds env s.owned k id ≡ true = rw (w.agree k id p, owned.0) (key_eq_refl k) in
      let (o₁, e₁, l) = remove_token-Lost free k id s.owned p w.enumerated held in
      let left = l.balances r q in
      let gone : holds env o₁ r id ≡ false =
        ground (arith, l.holding r id q, w.agree r id q, owned.0) in
      let (o₂, e₂, g) =
        set_token-Gained free r id o₁ q l.enumerated gone (ground (arith, key_eq_sound k r)) in
      let s₁ = handed env r id o₂ s in
      let frame = handed-owners id s o₂ in
      let more = g.balances r q in
      let (s', run, given, supply, events) =
        transfer_all-Reassigned ids s₁ (handed-IsWellFormed id s o₁ o₂ w owned.0 l g)
          (AllOwned-frame env s s₁ id (some r) (some k) ids frame distinct.0 owned.1) distinct.1
          (ground (arith, key_eq_refl r, key_eq_sound k r)) in
      (
        s',
        transfer_all-step env k r id ids s o₁ o₂ e₁ e₂ ∙ run,
        record { valid = given.valid; owners = λ v. ground (arith, given.owners v, frame v) },
        supply,
        events,
      )

  transfer_from_internal-eq_done :
      (ids : List TokenId) (s s₁ : Token) {pkg contract : ℕ}
      → check_owner env k ids s ≡ done tt s
      → transfer_all env k r ids s ≡ done tt s₁
      → get_last_call_stack_item env ≡ some (stored_contract pkg contract)
      → transfer_from_internal env k r ids s
        ≡ done tt (record s₁ {
          events =
              s₁.events ++ event_params env (env.package_to_string pkg) (transfer_event k r ids);
        })
  unfolding transfer_from_internal emit
  transfer_from_internal-eq_done ids s s₁ checked run stack =
      >>=-eq_done (check_owner env k ids) _ s checked
      ∙ (>>=-eq_done (transfer_all env k r ids) _ s run ∙ ground arith)

  transfer_from_internal-Reassigned :
      (ids : List TokenId) (s : Token) {pkg contract : ℕ}
      → IsWellFormed env InUse s
      → AllOwned env s (some k) ids
      → IsDistinct ids
      → balance env s.owned r + length ids < 2 ^ 256
      → get_last_call_stack_item env ≡ some (stored_contract pkg contract)
      → (s' : Token) × (transfer_from_internal env k r ids s ≡ done tt s')
        × Reassigned env InUse (some r) ids s s'
        × (s'.total_supply ≡ s.total_supply)
        × (s'.events
            ≡ s.events ++ event_params env (env.package_to_string pkg) (transfer_event k r ids))
  transfer_from_internal-Reassigned ids s {pkg} w owned distinct room stack =
      let (s₁, run, given, supply, events) = transfer_all-Reassigned ids s w owned distinct room in
      let s₂ = record s₁ {
        events = s₁.events ++ event_params env (env.package_to_string pkg) (transfer_event k r ids);
      } in
      (
        s₂,
        transfer_from_internal-eq_done ids s s₁ (check_owner-eq_done env k s ids owned) run stack,
        record {
          valid = record {
            enumerated = given.valid.enumerated;
            agree = given.valid.agree;
            owner_in_use = given.valid.owner_in_use;
          };
          owners = given.owners;
        },
        supply,
        rw events refl,
      )

  transfer-eq_internal :
      (ids : List TokenId) (s : Token)
      → immediate_caller env ≡ some k
      → transfer env r ids s ≡ transfer_from_internal env k r ids s
  unfolding transfer transfer_from get_immediate_caller_key
  transfer-eq_internal ids s e = ground (arith, key_eq_refl k)

  -- In a well-formed storage a `transfer` of distinct tokens by their owner, where the recipient's
  -- balance has room and the contract runs as a stored contract, succeeds, also to the owner itself:
  -- the recipient owns the tokens, no other token changes its owner, the total supply stays, one
  -- event for each is recorded, and the storage stays well-formed.
  pub transfer-Reassigned :
      (ids : List TokenId) (s : Token) {pkg contract : ℕ}
      → immediate_caller env ≡ some k
      → IsWellFormed env InUse s
      → AllOwned env s (some k) ids
      → IsDistinct ids
      → balance env s.owned r + length ids < 2 ^ 256
      → get_last_call_stack_item env ≡ some (stored_contract pkg contract)
      → (s' : Token) × (transfer env r ids s ≡ done tt s')
        × Reassigned env InUse (some r) ids s s'
        × (s'.total_supply ≡ s.total_supply)
        × (s'.events
            ≡ s.events ++ event_params env (env.package_to_string pkg) (transfer_event k r ids))
  transfer-Reassigned ids s called w owned distinct room stack =
      rw (transfer-eq_internal ids s called)
        (transfer_from_internal-Reassigned ids s w owned distinct room stack)
