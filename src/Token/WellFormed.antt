-- ===== src/Token/WellFormed.antt =====
-- The invariant of the token's storage: `Owners` and `OwnedTokens` tell the same story.
use casper_ve_cep.Prelude.{
  ℕ, ◌≡◌, Bool, false, ◌||◌, Option, none, some, List, [], ◌∷◌, ◌==◌, arith, if◌then◌else◌,
}
use casper_ve_cep.Host.{Env, Key, key_eq}
use casper_ve_cep.Token.OwnedTokens.Enumeration.{IsEnumerated, holds}
use casper_ve_cep.Token.State.{Token, TokenId, owners_get}

abbrev pub is_owner : Option Key → Key → Bool
is_owner none j = false
is_owner (some k) j = key_eq k j

pub record IsWellFormed (env : Env) (InUse : Key → Type 0) (s : Token) : Type 0 where
  pub enumerated : IsEnumerated env InUse s.owned
  pub agree :
      (j : Key) (v : TokenId) → InUse j → holds env s.owned j v ≡ is_owner (owners_get env s v) j
  pub owner_in_use : (v : TokenId) (k : Key) → owners_get env s v ≡ some k → InUse k

abbrev pub member : ℕ → List ℕ → Bool
member v [] = false
member v (x ∷ xs) = (x == v) || member v xs

-- No token is listed twice.
abbrev pub IsDistinct : List ℕ → Type 0
IsDistinct [] = Unit
IsDistinct (x ∷ xs) = (member x xs ≡ false) × IsDistinct xs

-- Every listed token has the owner `found`.
abbrev pub AllOwned : Env → Token → Option Key → List TokenId → Type 0
AllOwned env s found [] = Unit
AllOwned env s found (x ∷ xs) = (owners_get env s x ≡ found) × AllOwned env s found xs

-- After an operation that gives the listed tokens the owner `found` and touches no other token.
pub record Reassigned (env : Env) (InUse : Key → Type 0) (found : Option Key) (ids : List TokenId)
    (s s' : Token) : Type 0 where
  pub valid : IsWellFormed env InUse s'
  pub owners :
      (v : TokenId) → owners_get env s' v ≡ (if member v ids then found else owners_get env s v)

-- A write to another token does not touch the owners of the listed ones.
pub AllOwned-frame :
    (env : Env) (s s' : Token) (id : TokenId) (f found : Option Key) (xs : List TokenId)
    → ((v : TokenId) → owners_get env s' v ≡ (if id == v then f else owners_get env s v))
    → member id xs ≡ false
    → AllOwned env s found xs
    → AllOwned env s' found xs
AllOwned-frame env s s' id f found [] frame out h = tt
AllOwned-frame env s s' id f found (x ∷ xs) frame out h =
    (ground (arith, frame x), AllOwned-frame env s s' id f found xs frame (ground arith) h.1)
