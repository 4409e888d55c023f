-- ===== src/Token/Kept.antt =====
-- What every call of the token keeps when it returns, whatever its arguments (ve/src/cep47.rs).
use casper_ve_cep.Prelude.{
  ◌≡◌, refl, ◌∙◌, sym, ap, true, false, Option, none, some, List, [], ◌∷◌, arith, inl, inr,
  Bool-cases, Option-cases,
}
use casper_ve_cep.Exec.{done, Outcome-cases, >>=-done, unless}
use casper_ve_cep.Host.{Env, Key, set, remove, key_eq, get_immediate_caller_key}
use casper_ve_cep.Host.Addresses.{NoCollision, key_eq_sound}
use casper_ve_cep.Token.OwnedTokens.{OwnedTokens, remove_token, set_token}
use casper_ve_cep.Token.OwnedTokens.Enumeration.{holds}
use casper_ve_cep.Token.OwnedTokens.Inversion.{remove_token-returned, set_token-returned}
use casper_ve_cep.Token.State.{
  Token, TokenId, Meta, owners_get, emit, contract_package_hash, allowance_key, Cep47Event,
  transfer_event, approve_event,
}
use casper_ve_cep.Token.Cep47.{
  set_token_meta, transfer_all, check_owner, transfer_from_internal, transfer_from, use_approvals,
  approve, approve_all, is_approved,
}
use casper_ve_cep.Token.Cep47.Transfer.{
  handed, transfer_all-step, handed-IsWellFormed, handed-owners,
}
use casper_ve_cep.Token.WellFormed.{IsWellFormed, is_owner}

-- A call that keeps the storage well-formed, gives no owner to a token that has none, and leaves the
-- total supply.
pub record Kept (env : Env) (InUse : Key → Type 0) (s s' : Token) : Type 0 where
  pub valid : IsWellFormed env InUse s'
  pub unowned : (v : TokenId) → owners_get env s v ≡ none → owners_get env s' v ≡ none
  pub supply : s'.total_supply ≡ s.total_supply

pub is_owner_sound : (f : Option Key) (k : Key) → is_owner f k ≡ true → f ≡ some k
is_owner_sound none k h = cc
is_owner_sound (some j) k h = ap some (key_eq_sound j k h)

transfer_all-inversion :
    (env : Env) (k r : Key) (id : TokenId) (rest : List TokenId) (s s' : Token)
    → transfer_all env k r (id ∷ rest) s ≡ done tt s'
    → (o₁ : OwnedTokens) × (o₂ : OwnedTokens) × (remove_token env k id s.owned ≡ done tt o₁)
      × (set_token env r id o₁ ≡ done tt o₂)
      × (transfer_all env k r rest (handed env r id o₂ s) ≡ done tt s')
unfolding transfer_all
transfer_all-inversion env k r id rest s s' h =
    elim (Outcome-cases (remove_token env k id s.owned)) [
      | inr (inl (e, t, bad)) ↦ absurd (ground arith)
      | inr (inr (f, bad)) ↦ absurd (ground arith)
      | inl (u, o₁, removed) ↦ elim (Outcome-cases (set_token env r id o₁)) [
        | inr (inl (e, t, bad)) ↦ absurd (ground arith)
        | inr (inr (f, bad)) ↦ absurd (ground arith)
        | inl (v, o₂, added) ↦ (
          o₁,
          o₂,
          removed,
          added,
          sym (transfer_all-step env k r id rest s o₁ o₂ removed added) ∙ h,
        )
      ]
    ]

check_owner-frame :
    (env : Env) (k : Key) (ids : List TokenId) (s s' : Token)
    → check_owner env k ids s ≡ done tt s'
    → s' ≡ s
unfolding check_owner
check_owner-frame env k [] s s' h = cc
check_owner-frame env k (id ∷ ids) s s' h = ground (arith, check_owner-frame env k ids s s')

-- Two storages that differ at most in metadata, allowances and events.
record Alike (s s' : Token) : Type 0 where
  owned : s'.owned ≡ s.owned
  owners : s'.owners ≡ s.owners
  supply : s'.total_supply ≡ s.total_supply

use_approvals-Alike :
    (env : Env) (owner spender : Key) (ids : List TokenId) (s s' : Token)
    → use_approvals env owner spender ids s ≡ done tt s'
    → Alike s s'
unfolding use_approvals
use_approvals-Alike env owner spender [] s s' h =
    let same : s ≡ s' = cc in rw (← same) (record { owned = refl; owners = refl; supply = refl })
use_approvals-Alike env owner spender (id ∷ ids) s s' h =
    elim (Bool-cases (is_approved env s owner id spender)) [
      | inr refused ↦ absurd (ground arith)
      | inl approved ↦
          let s₁ = record s { allowances = remove s.allowances (allowance_key env owner id) } in
          let a = use_approvals-Alike env owner spender ids s₁ s' (ground arith) in
          record { owned = a.owned; owners = a.owners; supply = a.supply }
    ]

approve_all-Alike :
    (env : Env) (caller spender : Key) (ids : List TokenId) (s s' : Token)
    → approve_all env caller spender ids s ≡ done tt s'
    → Alike s s'
unfolding approve_all
approve_all-Alike env caller spender [] s s' h =
    let same : s ≡ s' = cc in rw (← same) (record { owned = refl; owners = refl; supply = refl })
approve_all-Alike env caller spender (id ∷ ids) s s' h = elim (Option-cases (owners_get env s id)) [
  | inl missing ↦ absurd (ground arith)
  | inr (k, found) ↦ elim (Bool-cases (key_eq k caller)) [
    | inr stranger ↦ absurd (ground arith)
    | inl owned ↦
        let s₁ = record s { allowances = set s.allowances (allowance_key env caller id) spender } in
        let a = approve_all-Alike env caller spender ids s₁ s' (ground arith) in
        record { owned = a.owned; owners = a.owners; supply = a.supply }
  ]
]

emit-Alike :
    (env : Env) (event : Cep47Event) (s s' : Token) → emit env event s ≡ done tt s' → Alike s s'
unfolding emit contract_package_hash
emit-Alike env event s s' h = record {
  owned = ground arith;
  owners = ground arith;
  supply = ground arith;
}

Alike-trans : {s s' s'' : Token} → Alike s s' → Alike s' s'' → Alike s s''
Alike-trans a b = record {
  owned = b.owned ∙ a.owned;
  owners = b.owners ∙ a.owners;
  supply = b.supply ∙ a.supply;
}

Alike-Kept :
    {env : Env} {InUse : Key → Type 0} (s s' : Token)
    → IsWellFormed env InUse s
    → Alike s s'
    → Kept env InUse s s'
Alike-Kept s s' w a = record {
  valid = record {
    enumerated = rw a.owned w.enumerated;
    agree = rw (a.owned, a.owners) w.agree;
    owner_in_use = rw a.owners w.owner_in_use;
  };
  unowned = λ v e. rw a.owners e;
  supply = a.supply;
}

Kept-trans :
    {env : Env} {InUse : Key → Type 0} {s s' s'' : Token}
    → Kept env InUse s s'
    → Kept env InUse s' s''
    → Kept env InUse s s''
Kept-trans a b = record {
  valid = b.valid;
  unowned = λ v e. b.unowned v (a.unowned v e);
  supply = b.supply ∙ a.supply;
}

module _ {env : Env} {InUse : Key → Type 0} (free : NoCollision env InUse) (k r : Key) (p : InUse k)
    (q : InUse r) where
  transfer_all-Kept :
      (ids : List TokenId) (s s' : Token)
      → IsWellFormed env InUse s
      → transfer_all env k r ids s ≡ done tt s'
      → Kept env InUse s s'
  unfolding transfer_all
  transfer_all-Kept [] s s' w h =
      let same : s ≡ s' = cc in
      rw (← same) (record { valid = w; unowned = λ v e. e; supply = refl })
  transfer_all-Kept (id ∷ ids) s s' w h =
      let (o₁, o₂, removed, added, rest) = transfer_all-inversion env k r id ids s s' h in
      let (held, l) = remove_token-returned free k id s.owned o₁ p w.enumerated removed in
      let owned : owners_get env s id ≡ some k =
        is_owner_sound (owners_get env s id) k (sym (w.agree k id p) ∙ held) in
      let gone : holds env o₁ r id ≡ false = ground (arith, l.holding r id q, w.agree r id q) in
      let g = set_token-returned free r id o₁ o₂ q l.enumerated gone added in
      let t =
        transfer_all-Kept ids (handed env r id o₂ s) s'
          (handed-IsWellFormed free k r p q id s o₁ o₂ w owned l g) rest in
      record {
        valid = t.valid;
        unowned = λ v e. t.unowned v (ground (arith, handed-owners free k r p q id s o₂ v));
        supply = t.supply;
      }

  pub transfer_from_internal-Kept :
      (ids : List TokenId) (s s' : Token)
      → IsWellFormed env InUse s
      → transfer_from_internal env k r ids s ≡ done tt s'
      → Kept env InUse s s'
  unfolding transfer_from_internal
  transfer_from_internal-Kept ids s s' w h =
      let (u, s₁, checked, rest) = >>=-done (check_owner env k ids) _ s h in
      let (v, s₂, moved, sent) = >>=-done (transfer_all env k r ids) _ s₁ rest in
      let same = check_owner-frame env k ids s s₁ checked in
      let t = transfer_all-Kept ids s s₂ w (rw (← same) moved) in
      Kept-trans t (Alike-Kept s₂ s' t.valid (emit-Alike env (transfer_event k r ids) s₂ s' sent))

  pub transfer_from-Kept :
      (ids : List TokenId) (s s' : Token)
      → IsWellFormed env InUse s
      → transfer_from env k r ids s ≡ done tt s'
      → Kept env InUse s s'
  unfolding transfer_from get_immediate_caller_key
  transfer_from-Kept ids s s' w h =
      let (spender, s₀, called, rest) = >>=-done (get_immediate_caller_key env) _ s h in
      let (u, s₁, checked, moved) =
        >>=-done (unless (key_eq k spender) (use_approvals env k spender ids)) _ s₀ rest in
      let a : Kept env InUse s s₁ = elim (Bool-cases (key_eq k spender)) [
        | inl own ↦
            let same : s ≡ s₁ = ground arith in
            Alike-Kept s s₁ w (rw (← same) (record { owned = refl; owners = refl; supply = refl }))
        | inr other ↦ Alike-Kept s s₁ w (use_approvals-Alike env k spender ids s s₁ (ground arith))
      ] in
      Kept-trans a (transfer_from_internal-Kept ids s₁ s' a.valid moved)

module _ {env : Env} {InUse : Key → Type 0} (s s' : Token) (w : IsWellFormed env InUse s) where
  pub approve-Kept :
      (spender : Key) (ids : List TokenId)
      → approve env spender ids s ≡ done tt s'
      → Kept env InUse s s'
  unfolding approve get_immediate_caller_key
  approve-Kept spender ids h =
      let (caller, s₀, called, rest) = >>=-done (get_immediate_caller_key env) _ s h in
      let (u, s₁, approved, sent) = >>=-done (approve_all env caller spender ids) _ s₀ rest in
      let same : s ≡ s₀ = ground arith in
      Alike-Kept s s' w (
        Alike-trans (approve_all-Alike env caller spender ids s s₁ (rw same approved))
          (emit-Alike env (approve_event caller spender ids) s₁ s' sent))

  pub set_token_meta-Kept :
      (id : TokenId) (m : Meta) → set_token_meta env id m s ≡ done tt s' → Kept env InUse s s'
  unfolding set_token_meta contract_package_hash
  set_token_meta-Kept id m h =
      Alike-Kept s s' w
        (record { owned = ground arith; owners = ground arith; supply = ground arith })

-- None of these calls touches the total supply, whatever the storage holds.
transfer_all-supply :
    (env : Env) (k r : Key) (ids : List TokenId) (s s' : Token)
    → transfer_all env k r ids s ≡ done tt s'
    → s'.total_supply ≡ s.total_supply
unfolding transfer_all
transfer_all-supply env k r [] s s' h = ground arith
transfer_all-supply env k r (id ∷ ids) s s' h =
    let (o₁, o₂, removed, added, rest) = transfer_all-inversion env k r id ids s s' h in
    transfer_all-supply env k r ids (handed env r id o₂ s) s' rest

transfer_from_internal-supply :
    (env : Env) (k r : Key) (ids : List TokenId) (s s' : Token)
    → transfer_from_internal env k r ids s ≡ done tt s'
    → s'.total_supply ≡ s.total_supply
unfolding transfer_from_internal
transfer_from_internal-supply env k r ids s s' h =
    let (u, s₁, checked, rest) = >>=-done (check_owner env k ids) _ s h in
    let (v, s₂, moved, sent) = >>=-done (transfer_all env k r ids) _ s₁ rest in
    (emit-Alike env (transfer_event k r ids) s₂ s' sent).supply
    ∙ transfer_all-supply env k r ids s₁ s₂ moved
    ∙ ap (λ (t : Token). t.total_supply) (check_owner-frame env k ids s s₁ checked)

pub transfer_from-supply :
    (env : Env) (k r : Key) (ids : List TokenId) (s s' : Token)
    → transfer_from env k r ids s ≡ done tt s'
    → s'.total_supply ≡ s.total_supply
unfolding transfer_from get_immediate_caller_key
transfer_from-supply env k r ids s s' h =
    let (spender, s₀, called, rest) = >>=-done (get_immediate_caller_key env) _ s h in
    let (u, s₁, checked, moved) =
      >>=-done (unless (key_eq k spender) (use_approvals env k spender ids)) _ s₀ rest in
    let same : s₀ ≡ s = ground arith in
    transfer_from_internal-supply env k r ids s₁ s' moved ∙ elim (Bool-cases (key_eq k spender)) [
      | inl own ↦ ground arith
      | inr other ↦
          (use_approvals-Alike env k spender ids s₀ s₁ (ground arith)).supply
          ∙ ap (λ (t : Token). t.total_supply) same
    ]

module _ (env : Env) (s s' : Token) where
  pub approve-supply :
      (spender : Key) (ids : List TokenId)
      → approve env spender ids s ≡ done tt s'
      → s'.total_supply ≡ s.total_supply
  unfolding approve get_immediate_caller_key
  approve-supply spender ids h =
      let (caller, s₀, called, rest) = >>=-done (get_immediate_caller_key env) _ s h in
      let (u, s₁, approved, sent) = >>=-done (approve_all env caller spender ids) _ s₀ rest in
      let same : s₀ ≡ s = ground arith in
      (emit-Alike env (approve_event caller spender ids) s₁ s' sent).supply
      ∙ (approve_all-Alike env caller spender ids s₀ s₁ approved).supply
      ∙ ap (λ (t : Token). t.total_supply) same

  pub set_token_meta-supply :
      (id : TokenId) (m : Meta)
      → set_token_meta env id m s ≡ done tt s'
      → s'.total_supply ≡ s.total_supply
  unfolding set_token_meta contract_package_hash
  set_token_meta-supply id m h = ground arith
