-- ===== src/Token/OwnedTokens/Enumeration.antt =====
-- The tokens of every address stay numbered from 0 without gaps, and the two dictionaries of
-- `OwnedTokens` stay inverse to one another.
use casper_ve_cep.Prelude.{
  ℕ, ◌+◌, ◌-◌, ◌^◌, ◌<◌, ◌≡◌, refl, Bool, true, false, ◌&&◌, none, some, inl, inr, is_some,
  Option-cases, ◌==◌, arith, Bool-cases, if◌then◌else◌,
}
use casper_ve_cep.Exec.{done}
use casper_ve_cep.Host.{Env, Key, key_eq}
use casper_ve_cep.Host.Addresses.{NoCollision, key_eq_sound}
use casper_ve_cep.Token.OwnedTokens.{
  OwnedTokens, get_token_by_index, get_index_by_token, set_token, remove_token,
}
use casper_ve_cep.Token.OwnedTokens.Effects.{
  balance, Appended, Removed, set_token-Appended, remove_token-Removed,
}

pub record IsEnumerated (env : Env) (InUse : Key → Type 0) (o : OwnedTokens) : Type 0 where
  pub fits : (j : Key) → InUse j → balance env o j < 2 ^ 256
  pub filled :
      (j : Key) (x : ℕ)
      → InUse j
      → x < balance env o j
      → (t : ℕ) × (get_token_by_index env o j x ≡ some t)
  pub below :
      (j : Key) (x t : ℕ) → InUse j → get_token_by_index env o j x ≡ some t → x < balance env o j
  pub token_index :
      (j : Key) (x t : ℕ)
      → InUse j
      → get_token_by_index env o j x ≡ some t
      → get_index_by_token env o j t ≡ some x
  pub index_token :
      (j : Key) (x t : ℕ)
      → InUse j
      → get_index_by_token env o j t ≡ some x
      → get_token_by_index env o j x ≡ some t

-- Whether `t` is filed as a token of `k`.
abbrev pub holds : Env → OwnedTokens → Key → ℕ → Bool
holds env o k t = is_some (get_index_by_token env o k t)

module _ {env : Env} {InUse : Key → Type 0} (k : Key) (t : ℕ) (o o' : OwnedTokens) (p : InUse k)
    (inv : IsEnumerated env InUse o) where
  Appended-IsEnumerated :
      get_index_by_token env o k t ≡ none
      → balance env o k + 1 < 2 ^ 256
      → Appended env InUse k t o o'
      → IsEnumerated env InUse o'
  Appended-IsEnumerated new small a = record {
    fits = λ j q. ground (arith, a.balances j q, inv.fits j q);
    filled = λ j x q lt. elim (Bool-cases (key_eq k j && (balance env o k == x))) [
      | inl here ↦ (t, rw (a.tokens j x q, here) refl)
      | inr there ↦
          rw (a.tokens j x q, there)
            (inv.filled j x q (ground (arith, a.balances j q, key_eq_sound k j)))
    ];
    below = λ j x v q e.
        ground (arith, a.tokens j x q, a.balances j q, key_eq_sound k j, inv.below j x v q);
    token_index = λ j x v q e.
        ground (arith, a.tokens j x q, a.indexes j v q, key_eq_sound k j, inv.token_index j x v q);
    index_token = λ j x v q e. ground (
      arith,
      a.tokens j x q,
      a.indexes j v q,
      key_eq_sound k j,
      inv.index_token j x v q,
      inv.below j x v q,
    );
  }

  Removed-IsEnumerated :
      (u i : ℕ)
      → get_index_by_token env o k t ≡ some i
      → get_token_by_index env o k (balance env o k - 1) ≡ some u
      → Removed env InUse k t u i o o'
      → IsEnumerated env InUse o'
  Removed-IsEnumerated u i fi fu a =
      let ft = inv.index_token k i t p fi in
      let lt = inv.below k i t p ft in
      let fl = inv.token_index k (balance env o k - 1) u p fu in
      record {
        fits = λ j q. ground (arith, a.balances j q, inv.fits j q);
        filled = λ j x q small. elim (Bool-cases (key_eq k j)) [
          | inl here ↦ elim (Bool-cases (i == x)) [
            | inl at_gap ↦ (u, ground (arith, a.tokens j x q, a.balances j q, key_eq_sound k j))
            | inr kept ↦
                let (v, e) = inv.filled j x q (ground (arith, a.balances j q, key_eq_sound k j)) in
                (v, ground (arith, a.tokens j x q, a.balances j q, key_eq_sound k j))
          ]
          | inr there ↦
              let (v, e) = inv.filled j x q (ground (arith, a.balances j q)) in
              (v, ground (arith, a.tokens j x q))
        ];
        below = λ j x v q e.
            ground (arith, a.tokens j x q, a.balances j q, key_eq_sound k j, inv.below j x v q);
        token_index = λ j x v q e.
            ground
              (arith, a.tokens j x q, a.indexes j v q, key_eq_sound k j, inv.token_index j x v q);
        index_token = λ j x v q e.
            ground
              (arith, a.tokens j x q, a.indexes j v q, key_eq_sound k j, inv.index_token j x v q);
      }

-- Who holds a token has a balance.
pub balance_pos :
    {env : Env} {InUse : Key → Type 0} (k : Key) (t : ℕ) (o : OwnedTokens)
    → InUse k
    → IsEnumerated env InUse o
    → holds env o k t ≡ true
    → 0 < balance env o k
balance_pos {env} k t o p inv held = elim (Option-cases (get_index_by_token env o k t)) [
  | inl missing ↦ absurd (ground arith)
  | inr (i, fi) ↦ omega (arith, inv.below k i t p (inv.index_token k i t p fi))
]

-- The state after `k` has got the token `t`: only that changes in who holds what.
pub record Gained (env : Env) (InUse : Key → Type 0) (k : Key) (t : ℕ) (o o' : OwnedTokens)
    : Type 0 where
  pub enumerated : IsEnumerated env InUse o'
  pub holding :
      (j : Key) (v : ℕ)
      → InUse j
      → holds env o' j v ≡ (if key_eq k j && (t == v) then true else holds env o j v)
  pub balances :
      (j : Key)
      → InUse j
      → balance env o' j ≡ (if key_eq k j then balance env o k + 1 else balance env o j)

-- The state after `k` has given up the token `t`.
pub record Lost (env : Env) (InUse : Key → Type 0) (k : Key) (t : ℕ) (o o' : OwnedTokens)
    : Type 0 where
  pub enumerated : IsEnumerated env InUse o'
  pub holding :
      (j : Key) (v : ℕ)
      → InUse j
      → holds env o' j v ≡ (if key_eq k j && (t == v) then false else holds env o j v)
  pub balances :
      (j : Key)
      → InUse j
      → balance env o' j ≡ (if key_eq k j then balance env o k - 1 else balance env o j)

module _ {env : Env} {InUse : Key → Type 0} (free : NoCollision env InUse) where
  -- In an enumerated state, where the address does not hold the token and its balance can grow,
  -- `set_token` ends normally, keeps the state enumerated, and adds just that token to just that
  -- address.
  pub set_token-Gained :
      (k : Key) (t : ℕ) (o : OwnedTokens)
      → InUse k
      → IsEnumerated env InUse o
      → holds env o k t ≡ false
      → balance env o k + 1 < 2 ^ 256
      → (o' : OwnedTokens) × (set_token env k t o ≡ done tt o') × Gained env InUse k t o o'
  set_token-Gained k t o p inv new small =
      let (o', e, a) = set_token-Appended free k t o p small in
      (
        o',
        e,
        record {
          enumerated = Appended-IsEnumerated k t o o' p inv (ground arith) small a;
          holding = λ j v q. ground (arith, a.indexes j v q);
          balances = a.balances;
        },
      )

  -- In an enumerated state, `remove_token` of a token that the address holds ends normally, keeps the
  -- state enumerated, and takes just that token from just that address.
  pub remove_token-Lost :
      (k : Key) (t : ℕ) (o : OwnedTokens)
      → InUse k
      → IsEnumerated env InUse o
      → holds env o k t ≡ true
      → (o' : OwnedTokens) × (remove_token env k t o ≡ done tt o') × Lost env InUse k t o o'
  remove_token-Lost k t o p inv held = elim (Option-cases (get_index_by_token env o k t)) [
    | inl missing ↦ absurd (ground arith)
    | inr (i, fi) ↦
        let lt = inv.below k i t p (inv.index_token k i t p fi) in
        let (u, fu) = inv.filled k (balance env o k - 1) p (omega arith) in
        let ft = inv.token_index k (balance env o k - 1) u p fu in
        let (o', e, a) = remove_token-Removed free k t u i o p lt (inv.fits k p) fi ft fu in
        (
          o',
          e,
          record {
            enumerated = Removed-IsEnumerated k t o o' p inv u i fi fu a;
            holding = λ j v q. ground (arith, a.indexes j v q, key_eq_sound k j);
            balances = a.balances;
          },
        )
  ]
