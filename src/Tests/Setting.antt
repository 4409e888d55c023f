-- ===== src/Tests/Setting.antt =====
-- A concrete host: short injective texts for addresses and numbers, and one account that calls the
-- contract directly.
use casper_ve_cep.Prelude.{
  ℕ, ◌^◌, ◌<◌, ◌≡◌, refl, Bool, true, false, some, List, [], ◌∷◌, Text, arith,
}
use casper_ve_cep.Exec.{Outcome, done, failed, reverted}
use casper_ve_cep.Host.{
  Env, Key, account, hash, other, session, stored_contract, key_label, key_and_value_to_str,
}
use casper_ve_cep.Host.Addresses.{NoCollision}
use casper_ve_cep.Token.State.{Token, init}
use casper_ve_cep.Token.OwnedTokens.Effects.{balance}
use casper_ve_cep.Token.WellFormed.{IsWellFormed}

abbrev encode : Key → List ℕ
encode (account a) = 0 ∷ a ∷ []
encode (hash h) = 1 ∷ h ∷ []
encode (other o) = 2 ∷ o ∷ []

-- A call of the contract with package hash 7 by the account `caller` at a time in milliseconds.
abbrev pub host : ℕ → ℕ → Env
host caller time = record {
  account_to_string = λ n. 0 ∷ n ∷ [];
  hash_to_hex = λ n. 1 ∷ n ∷ [];
  key_to_string = encode;
  package_to_string = λ n. n ∷ [];
  u256_to_string = λ n. n ∷ [];
  key_to_bytes = encode;
  u256_to_bytes = λ n. n ∷ [];
  string_to_bytes = λ t. t;
  blake2b_hex = λ bytes. bytes;
  call_stack = session caller ∷ stored_contract 7 8 ∷ [];
  block_time = time;
  transfer_accepted = λ contract from recipient amount. true;
}

abbrev pub IsAccount : Key → Type 0
IsAccount (account a) = Unit
IsAccount (hash h) = ⊥
IsAccount (other o) = ⊥

module _ (caller time : ℕ) where
  label : (k : Key) → IsAccount k → (l : Text) × (key_label (host caller time) k ≡ some l)
  label (account a) p = (0 ∷ a ∷ [], refl)
  label (hash h) p = absurd p
  label (other o) p = absurd p

  label_injective :
      (k j : Key)
      → IsAccount k
      → IsAccount j
      → key_label (host caller time) k ≡ key_label (host caller time) j
      → k ≡ j
  label_injective (account a) (account b) p q e = cc
  label_injective (hash h) j p q e = absurd p
  label_injective (other o) j p q e = absurd p
  label_injective k (hash h) p q e = absurd q
  label_injective k (other o) p q e = absurd q

  slot_injective :
      (k j : Key) (n m : ℕ)
      → IsAccount k
      → IsAccount j
      → key_and_value_to_str (host caller time) k n ≡ key_and_value_to_str (host caller time) j m
      → (k ≡ j) × (n ≡ m)
  unfolding key_and_value_to_str
  slot_injective (account a) (account b) n m p q e = (cc, cc)
  slot_injective (hash h) j n m p q e = absurd p
  slot_injective (other o) j n m p q e = absurd p
  slot_injective k (hash h) n m p q e = absurd q
  slot_injective k (other o) n m p q e = absurd q

  pub host-NoCollision : NoCollision (host caller time) IsAccount
  host-NoCollision = record {
    label = label;
    label_injective = label_injective;
    slot_injective = slot_injective;
    id_injective = λ a b e. cc;
  }

-- The state that a call leaves, or the one before it, and whether the call returned.
abbrev pub after : {S A : Type 0} → S → Outcome S A → S
after s (done a s') = s'
after s (failed e s') = s
after s (reverted r) = s

abbrev pub is_done : {S A : Type 0} → Outcome S A → Bool
is_done (done a s') = true
is_done (failed e s') = false
is_done (reverted r) = false

pub is_done-after :
    {S : Type 0} (s : S) (o : Outcome S (Unit {0})) → is_done o ≡ true → o ≡ done tt (after s o)
is_done-after s (done a s') h = refl
is_done-after s (failed e s') h = cc
is_done-after s (reverted r) h = cc

abbrev pub fresh : Token
fresh = init [] [] []

module _ (caller time : ℕ) where
  fits : (k : Key) → IsAccount k → balance (host caller time) fresh.owned k < 2 ^ 256
  unfolding init
  fits (account a) p = omega arith
  fits (hash h) p = absurd p
  fits (other o) p = absurd p

  empty_balance : (k : Key) → IsAccount k → balance (host caller time) fresh.owned k ≡ 0
  unfolding init
  empty_balance (account a) p = refl
  empty_balance (hash h) p = absurd p
  empty_balance (other o) p = absurd p

  pub fresh-IsWellFormed : IsWellFormed (host caller time) IsAccount fresh
  unfolding init
  fresh-IsWellFormed = record {
    enumerated = record {
      fits = fits;
      filled = λ k x p lt. absurd (omega (arith, empty_balance k p));
      below = λ j x t p e. cc;
      token_index = λ j x t p e. cc;
      index_token = λ j x t p e. cc;
    };
    agree = λ j v p. refl;
    owner_in_use = λ v k e. cc;
  }
