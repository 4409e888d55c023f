-- ===== src/Votes/Null.antt =====
-- The null address of `_move_token_delegates` and `_delegates` (ve/src/vedata.rs) as `is_null` of
-- ve/src/utils.rs sees it.
use casper_ve_cep.Prelude.{
  ℕ, ◌≡◌, ◌≢◌, ap, false, none, some, length, Text, text_eq, text_eq_sound, Bool-cases, inl, inr,
  arith,
}
use casper_ve_cep.Exec.{done}
use casper_ve_cep.Host.{Env, Key, get, key_label, key_to_str, null_key, null_bytes, is_null}
use casper_ve_cep.Votes.State.{Votes, get_delegate, delegates_of}
use casper_ve_cep.Votes.Delegation.{move_token_delegates}

-- The documented encoding of a `Key`: a tag and at least one more byte behind, never 32 bytes.
abbrev pub IsTagged : Env → Key → Type 0
IsTagged env k = length (env.key_to_bytes k) ≢ 32

-- `is_null` compares the encoding of a key with 32 bytes, so it holds of no key whose encoding has
-- another length.
pub is_null-false : (env : Env) (k : Key) → IsTagged env k → is_null env k ≡ false
unfolding is_null
is_null-false env k tagged = elim (Bool-cases (text_eq (env.key_to_bytes k) null_bytes)) [
  | inr e ↦ e
  | inl e ↦ absurd (tagged (ap length (text_eq_sound _ _ e)))
]

module _ (env : Env) (a : Key) (l : Text) (s : Votes) where
  delegates_of-unset :
      IsTagged env null_key
      → key_label env a ≡ some l
      → get s.delegates l ≡ none
      → delegates_of env a s ≡ done null_key s
  unfolding delegates_of get_delegate key_to_str
  delegates_of-unset tagged e unset = ground (arith, is_null-false env null_key tagged)

  -- Where the null address has a tagged encoding, an address that has never delegated is represented
  -- by the null address and not by itself, and a new token of it is entered for nobody: the storage
  -- of votes stays as it is.
  pub undelegated_lock :
      (token_id : ℕ)
      → IsTagged env null_key
      → key_label env a ≡ some l
      → get s.delegates l ≡ none
      → (delegates_of env a s ≡ done null_key s)
        × (move_token_delegates env null_key null_key token_id s ≡ done tt s)
  unfolding move_token_delegates
  undelegated_lock token_id tagged e unset = (delegates_of-unset tagged e unset, ground arith)
