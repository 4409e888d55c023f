-- ===== src/Token/Single.antt =====
-- `mint` and `burn` of one token, as ve/src/vedata.rs calls them, when they return.
use mathlib.Core.List.{zip}
use casper_ve_cep.Prelude.{
  ◌+◌, ◌≡◌, ◌∙◌, sym, false, none, some, List, [], ◌∷◌, ◌==◌, arith, if◌then◌else◌, inl, inr,
  Bool-cases, Option-cases,
}
use casper_ve_cep.Exec.{done, Outcome-cases, >>=-done, unless}
use casper_ve_cep.Host.{Env, Key, key_eq, get_immediate_caller_key}
use casper_ve_cep.Host.Addresses.{NoCollision}
use casper_ve_cep.Token.OwnedTokens.{OwnedTokens, remove_token, set_token}
use casper_ve_cep.Token.OwnedTokens.Enumeration.{holds}
use casper_ve_cep.Token.OwnedTokens.Inversion.{remove_token-returned, set_token-returned}
use casper_ve_cep.Token.State.{Token, TokenId, owners_get, emit, contract_package_hash}
use casper_ve_cep.Token.Cep47.{
  mint, mint_all, check_unminted, burn, burn_internal, burn_all, check_owner, check_approved,
}
use casper_ve_cep.Token.Cep47.Mint.{minted, minted-IsWellFormed, minted-owners}
use casper_ve_cep.Token.Cep47.Burn.{burnt, burnt-IsWellFormed}
use casper_ve_cep.Token.WellFormed.{IsWellFormed}
use casper_ve_cep.Token.Kept.{is_owner_sound}

module _ (env : Env) (s s' : Token) (id : TokenId) where
  pub mint-inversion :
      (to : Key) (ids : List TokenId)
      → mint env to (id ∷ []) ([] ∷ []) s ≡ done ids s'
      → (owners_get env s id ≡ none)
        × (o : OwnedTokens) × (set_token env to id s.owned ≡ done tt o)
        × (s'.owners ≡ (minted env to id [] o s).owners)
        × (s'.owned ≡ o)
        × (s'.total_supply ≡ s.total_supply + 1)
  unfolding mint mint_all check_unminted zip emit contract_package_hash
  mint-inversion to ids h = elim (Option-cases (owners_get env s id)) [
    | inr (k, taken) ↦ absurd (ground arith)
    | inl new ↦ elim (Outcome-cases (set_token env to id s.owned)) [
      | inr (inl (e, t, bad)) ↦ absurd (ground arith)
      | inr (inr (f, bad)) ↦ absurd (ground arith)
      | inl (u, o, added) ↦ (new, o, added, ground arith, ground arith, ground arith)
    ]
  ]

  burn_internal-inversion :
      (k : Key)
      → burn_internal env k (id ∷ []) s ≡ done tt s'
      → (o : OwnedTokens) × (remove_token env k id s.owned ≡ done tt o)
        × (s'.owners ≡ (burnt env k id o s).owners)
        × (s'.owned ≡ o)
        × (s'.total_supply + 1 ≡ s.total_supply)
  unfolding burn_internal burn_all check_owner emit contract_package_hash
  burn_internal-inversion k h = elim (Outcome-cases (remove_token env k id s.owned)) [
    | inr (inl (e, t, bad)) ↦ absurd (ground arith)
    | inr (inr (f, bad)) ↦ absurd (ground arith)
    | inl (u, o, removed) ↦ (o, removed, ground arith, ground arith, ground arith)
  ]

  check_approved-frame :
      (owner spender : Key) (s₁ : Token)
      → check_approved env owner spender (id ∷ []) s ≡ done tt s₁
      → s₁ ≡ s
  unfolding check_approved
  check_approved-frame owner spender s₁ h = ground arith

  burn-burn_internal :
      (k : Key) → burn env k (id ∷ []) s ≡ done tt s' → burn_internal env k (id ∷ []) s ≡ done tt s'
  unfolding burn get_immediate_caller_key
  burn-burn_internal k h =
      let (spender, s₀, called, rest) = >>=-done (get_immediate_caller_key env) _ s h in
      let (u, s₁, checked, burnt_) =
        >>=-done (unless (key_eq spender k) (check_approved env k spender (id ∷ []))) _ s₀ rest in
      let same₀ : s₀ ≡ s = ground arith in
      let same : s₁ ≡ s = elim (Bool-cases (key_eq spender k)) [
        | inl own ↦ ground arith
        | inr other ↦ check_approved-frame k spender s₁ (rw (← same₀) (ground arith))
      ] in
      rw (← same) burnt_

-- A token whose owners and owned tokens are those of another is as well-formed.
same-IsWellFormed :
    {env : Env} {InUse : Key → Type 0} (s s' : Token)
    → s'.owners ≡ s.owners
    → s'.owned ≡ s.owned
    → IsWellFormed env InUse s
    → IsWellFormed env InUse s'
same-IsWellFormed s s' owners owned w = record {
  enumerated = rw owned w.enumerated;
  agree = rw (owned, owners) w.agree;
  owner_in_use = rw owners w.owner_in_use;
}

module _ {env : Env} {InUse : Key → Type 0} (free : NoCollision env InUse) (k : Key) (p : InUse k)
    (id : TokenId) (s s' : Token) (w : IsWellFormed env InUse s) where
  -- What `mint` of one token with empty metadata has done when it returns.
  pub mint-returned :
      (ids : List TokenId)
      → mint env k (id ∷ []) ([] ∷ []) s ≡ done ids s'
      → (owners_get env s id ≡ none)
        × IsWellFormed env InUse s'
        × ((v : TokenId) → owners_get env s' v ≡ (if id == v then some k else owners_get env s v))
        × (s'.total_supply ≡ s.total_supply + 1)
  mint-returned ids h =
      let (new, o, added, owners, owned, supply) = mint-inversion env s s' id k ids h in
      let fresh : holds env s.owned k id ≡ false = ground (arith, w.agree k id p) in
      let g = set_token-returned free k id s.owned o p w.enumerated fresh added in
      (
        new,
        same-IsWellFormed (minted env k id [] o s) s' owners owned
            (minted-IsWellFormed free k p id [] s o w new g),
        rw owners (minted-owners free k p id [] s o),
        supply,
      )

  -- A `burn` of one token that returns keeps the storage well-formed.
  pub burn-returned : burn env k (id ∷ []) s ≡ done tt s' → IsWellFormed env InUse s'
  burn-returned h =
      let (o, removed, owners, owned, counted) =
        burn_internal-inversion env s s' id k (burn-burn_internal env s s' id k h) in
      let (held, l) = remove_token-returned free k id s.owned o p w.enumerated removed in
      let had : owners_get env s id ≡ some k =
        is_owner_sound (owners_get env s id) k (sym (w.agree k id p) ∙ held) in
      same-IsWellFormed (burnt env k id o s) s' owners owned
        (burnt-IsWellFormed free k p id s o w had l)

-- A burn of one token lowers the total supply by one.
pub burn-counted :
    (env : Env) (k : Key) (id : TokenId) (s s' : Token)
    → burn env k (id ∷ []) s ≡ done tt s'
    → s'.total_supply + 1 ≡ s.total_supply
burn-counted env k id s s' h =
    let (o, removed, owners, owned, counted) =
      burn_internal-inversion env s s' id k (burn-burn_internal env s s' id k h) in
    counted
