-- ===== src/Token/Cep47/Mint.antt =====
-- `mint` of ve/src/cep47.rs: what it does where it succeeds, and when it does.
use mathlib.Core.List.{zip}
use casper_ve_cep.Prelude.{
  ℕ, ◌+◌, ◌^◌, ◌<◌, ◌≡◌, refl, ◌∙◌, none, some, List, [], ◌∷◌, ◌++◌, length, ◌==◌, arith,
  if◌then◌else◌, Bool-cases, inl, inr, subst,
}
use casper_ve_cep.Exec.{done, >>=-eq_done, ensure}
use casper_ve_cep.Errors.{wrong_arguments}
use casper_ve_cep.Host.{Env, Key, set, stored_contract, get_last_call_stack_item}
use casper_ve_cep.Host.Addresses.{NoCollision, text_eq-id, key_eq_refl}
use casper_ve_cep.Token.OwnedTokens.{OwnedTokens, set_token}
use casper_ve_cep.Token.OwnedTokens.Effects.{balance}
use casper_ve_cep.Token.OwnedTokens.Enumeration.{Gained, set_token-Gained}
use casper_ve_cep.Token.State.{Token, TokenId, Meta, owners_get, mint_event, event_params, emit}
use casper_ve_cep.Token.Cep47.{check_unminted, mint_all, mint}
use casper_ve_cep.Token.WellFormed.{AllOwned-frame, IsWellFormed, IsDistinct, AllOwned, Reassigned}

abbrev pub minted : Env → Key → TokenId → Meta → OwnedTokens → Token → Token
minted env r id m o s = record s {
  owners = set s.owners (env.u256_to_string id) r;
  metadata = set s.metadata (env.u256_to_string id) m;
  owned = o;
}

pub mint_all-step :
    (env : Env) (r : Key) (id : TokenId) (m : Meta) (rest : List (TokenId × Meta)) (s : Token)
    (o : OwnedTokens)
    → set_token env r id s.owned ≡ done tt o
    → mint_all env r ((id, m) ∷ rest) s ≡ mint_all env r rest (minted env r id m o s)
unfolding mint_all
mint_all-step env r id m rest s o e = ground arith

module _ {env : Env} {InUse : Key → Type 0} (free : NoCollision env InUse) (r : Key)
    (p : InUse r) where
  pub minted-IsWellFormed :
      (id : TokenId) (m : Meta) (s : Token) (o : OwnedTokens)
      → IsWellFormed env InUse s
      → owners_get env s id ≡ none
      → Gained env InUse r id s.owned o
      → IsWellFormed env InUse (minted env r id m o s)
  minted-IsWellFormed id m s o w new g = record {
    enumerated = g.enumerated;
    agree = λ j v q. ground (arith, g.holding j v q, w.agree j v q, text_eq-id free id v);
    owner_in_use = λ v k e. elim (Bool-cases (id == v)) [
      | inl here ↦ let same : r ≡ k = ground (arith, text_eq-id free id v) in subst InUse same p
      | inr there ↦ w.owner_in_use v k (ground (arith, text_eq-id free id v))
    ];
  }

  pub minted-owners :
      (id : TokenId) (m : Meta) (s : Token) (o : OwnedTokens) (v : TokenId)
      → owners_get env (minted env r id m o s) v ≡ (if id == v then some r else owners_get env s v)
  minted-owners id m s o v = ground (arith, text_eq-id free id v)

  -- The second loop of `mint`, on distinct tokens that have no owner.
  mint_all-Reassigned :
      (ids : List TokenId) (metas : List Meta) (s : Token)
      → length ids ≡ length metas
      → IsWellFormed env InUse s
      → AllOwned env s none ids
      → IsDistinct ids
      → balance env s.owned r + length ids < 2 ^ 256
      → (s' : Token) × (mint_all env r (zip ids metas) s ≡ done tt s')
        × Reassigned env InUse (some r) ids s s'
        × (balance env s'.owned r ≡ balance env s.owned r + length ids)
        × (s'.total_supply ≡ s.total_supply)
        × (s'.events ≡ s.events)
  unfolding zip mint_all
  mint_all-Reassigned [] metas s same w free_ids distinct small =
      (s, refl, record { valid = w; owners = λ v. refl }, omega arith, refl, refl)
  mint_all-Reassigned (id ∷ ids) [] s same w free_ids distinct small = absurd (omega arith)
  mint_all-Reassigned (id ∷ ids) (m ∷ metas) s same w free_ids distinct small =
      let (o, e, g) =
        set_token-Gained free r id s.owned p w.enumerated (rw (w.agree r id p, free_ids.0) refl)
          (omega arith) in
      let s₁ = minted env r id m o s in
      let frame = minted-owners id m s o in
      let grown = g.balances r p in
      let (s', run, given, total, supply, events) =
        mint_all-Reassigned ids metas s₁ (omega arith) (minted-IsWellFormed id m s o w free_ids.0 g)
          (AllOwned-frame env s s₁ id (some r) none ids frame distinct.0 free_ids.1) distinct.1
          (ground (arith, key_eq_refl r)) in
      (
        s',
        mint_all-step env r id m (zip ids metas) s o e ∙ run,
        record { valid = given.valid; owners = λ v. ground (arith, given.owners v, frame v) },
        ground (arith, key_eq_refl r),
        supply,
        events,
      )

module _ (env : Env) (s : Token) where
  check_unminted-eq_done :
      (ids : List TokenId) → AllOwned env s none ids → check_unminted env ids s ≡ done tt s
  unfolding check_unminted
  check_unminted-eq_done [] h = refl
  check_unminted-eq_done (id ∷ ids) h = ground (arith, check_unminted-eq_done ids h.1)

  mint-eq_done :
      (r : Key) (ids : List TokenId) (metas : List Meta) (s₁ : Token) {pkg contract : ℕ}
      → length ids ≡ length metas
      → check_unminted env ids s ≡ done tt s
      → mint_all env r (zip ids metas) s ≡ done tt s₁
      → s₁.total_supply + length ids < 2 ^ 256
      → get_last_call_stack_item env ≡ some (stored_contract pkg contract)
      → mint env r ids metas s
        ≡ done ids (record s₁ {
          total_supply = s₁.total_supply + length ids;
          events = s₁.events ++ event_params env (env.package_to_string pkg) (mint_event r ids);
        })
  unfolding mint emit
  mint-eq_done r ids metas s₁ same checked run room stack =
      >>=-eq_done (ensure (length ids == length metas) wrong_arguments) _ s (ground arith)
      ∙ (>>=-eq_done (check_unminted env ids) _ s checked
          ∙ (>>=-eq_done (mint_all env r (zip ids metas)) _ s run ∙ ground arith))

module _ {env : Env} {InUse : Key → Type 0} (free : NoCollision env InUse) (r : Key)
    (p : InUse r) where
  -- In a well-formed storage `mint` of distinct tokens without owner, one `Meta` for each, where the
  -- counters have room and the contract runs as a stored contract, succeeds: it returns the tokens,
  -- the recipient owns them, no other token changes its owner, the recipient's balance and the
  -- total supply grow by their number, one event for each is recorded, and the storage stays
  -- well-formed.
  pub mint-Reassigned :
      (ids : List TokenId) (metas : List Meta) (s : Token) {pkg contract : ℕ}
      → IsWellFormed env InUse s
      → length ids ≡ length metas
      → AllOwned env s none ids
      → IsDistinct ids
      → balance env s.owned r + length ids < 2 ^ 256
      → s.total_supply + length ids < 2 ^ 256
      → get_last_call_stack_item env ≡ some (stored_contract pkg contract)
      → (s' : Token) × (mint env r ids metas s ≡ done ids s')
        × Reassigned env InUse (some r) ids s s'
        × (balance env s'.owned r ≡ balance env s.owned r + length ids)
        × (s'.total_supply ≡ s.total_supply + length ids)
        × (s'.events ≡ s.events ++ event_params env (env.package_to_string pkg) (mint_event r ids))
  mint-Reassigned ids metas s {pkg} w same unowned distinct room supply_room stack =
      let (s₁, run, given, total, supply, events) =
        mint_all-Reassigned free r p ids metas s same w unowned distinct room in
      let s₂ = record s₁ {
        total_supply = s₁.total_supply + length ids;
        events = s₁.events ++ event_params env (env.package_to_string pkg) (mint_event r ids);
      } in
      (
        s₂,
        mint-eq_done env s r ids metas s₁ same (check_unminted-eq_done env s ids unowned) run
            (omega arith) stack,
        record {
          valid = record {
            enumerated = given.valid.enumerated;
            agree = given.valid.agree;
            owner_in_use = given.valid.owner_in_use;
          };
          owners = given.owners;
        },
        total,
        rw supply refl,
        rw events refl,
      )
