-- ===== src/Token/OwnedTokens/Effects.antt =====
-- What `set_token` and `remove_token` write, as seen through the lookups of every address in use.
use casper_ve_cep.Prelude.{
  ℕ, ◌+◌, ◌-◌, ◌^◌, ◌<◌, ◌≡◌, refl, ap, sym, ◌∙◌, Bool, true, false, ◌&&◌, Option, none, some, Text,
  get_or, ◌==◌, if◌then◌else◌, arith,
}
use casper_ve_cep.Exec.{done}
use casper_ve_cep.Host.{Env, Key, get, set, remove, key_eq, key_label, key_and_value_to_str}
use casper_ve_cep.Host.Addresses.{NoCollision, text_eq-slot, text_eq-label}
use casper_ve_cep.Token.OwnedTokens.{
  OwnedTokens, get_token_by_index, get_index_by_token, set_token, remove_token,
}

-- The balance that `get_balances` reads.
abbrev pub balance_at : OwnedTokens → Option Text → ℕ
balance_at o none = 0
balance_at o (some l) = get_or (get o.balances l) 0

module _ (env : Env) where
  abbrev pub balance : OwnedTokens → Key → ℕ
  balance o k = balance_at o (key_label env k)

  abbrev appended : Key → ℕ → Text → OwnedTokens → OwnedTokens
  appended k t l o = record {
    tokens = set o.tokens (key_and_value_to_str env k (balance_at o (some l))) t;
    indexes = set o.indexes (key_and_value_to_str env k t) (balance_at o (some l));
    balances = set o.balances l (balance_at o (some l) + 1);
  }

  set_token-eq_done :
      (k : Key) (t : ℕ) (l : Text) (o : OwnedTokens)
      → key_label env k ≡ some l
      → balance_at o (some l) + 1 < 2 ^ 256
      → set_token env k t o ≡ done tt (appended k t l o)
  unfolding set_token
  set_token-eq_done k t l o e small = ground arith

  -- `tok` and `idx` are the entries before the removal of the token with number `i`, `n` the balance.
  abbrev cleared : Key → ℕ → ℕ → Text → OwnedTokens → OwnedTokens
  cleared k t top l o = record {
    tokens = remove o.tokens (key_and_value_to_str env k top);
    indexes = remove o.indexes (key_and_value_to_str env k t);
    balances = set o.balances l top;
  }

  abbrev moved : Key → ℕ → ℕ → OwnedTokens → OwnedTokens
  moved k u i o = record o {
    tokens = set o.tokens (key_and_value_to_str env k i) u;
    indexes = set o.indexes (key_and_value_to_str env k u) i;
  }

  abbrev after_remove : Bool → Key → ℕ → ℕ → ℕ → ℕ → Text → OwnedTokens → OwnedTokens
  after_remove true k t u i top l o = cleared k t top l o
  after_remove false k t u i top l o = cleared k t top l (moved k u i o)

  balances-after_remove :
      (b : Bool) (k : Key) (t u i top : ℕ) (l : Text) (o : OwnedTokens)
      → (after_remove b k t u i top l o).balances ≡ set o.balances l top
  balances-after_remove true k t u i top l o = refl
  balances-after_remove false k t u i top l o = refl

  remove_token-eq_done :
      (k : Key) (t u i n : ℕ) (l : Text) (o : OwnedTokens)
      → key_label env k ≡ some l
      → balance_at o (some l) ≡ n
      → i < n
      → n < 2 ^ 256
      → get_index_by_token env o k t ≡ some i
      → get_token_by_index env o k (n - 1) ≡ some u
      → remove_token env k t o ≡ done tt (after_remove (n == i + 1) k t u i (n - 1) l o)
  unfolding remove_token
  remove_token-eq_done k t u i n l o e b lt small found top = ground arith

-- The lookups after `set_token`, in terms of those before it.
pub record Appended (env : Env) (InUse : Key → Type 0) (k : Key) (t : ℕ) (o o' : OwnedTokens)
    : Type 0 where
  pub tokens :
      (j : Key) (x : ℕ)
      → InUse j
      → get_token_by_index env o' j x
        ≡ (if key_eq k j && (balance env o k == x) then some t else get_token_by_index env o j x)
  pub indexes :
      (j : Key) (v : ℕ)
      → InUse j
      → get_index_by_token env o' j v
        ≡ (if key_eq k j && (t == v) then some (balance env o k) else get_index_by_token env o j v)
  pub balances :
      (j : Key)
      → InUse j
      → balance env o' j ≡ (if key_eq k j then balance env o k + 1 else balance env o j)

-- The lookups after `remove_token` of the token `t` with number `i`, where `u` is the last one.
pub record Removed (env : Env) (InUse : Key → Type 0) (k : Key) (t u i : ℕ) (o o' : OwnedTokens)
    : Type 0 where
  pub tokens :
      (j : Key) (x : ℕ)
      → InUse j
      → get_token_by_index env o' j x ≡ (
          if key_eq k j && (balance env o k - 1 == x)
          then none
          else if key_eq k j && (i == x)
          then some u
          else get_token_by_index env o j x)
  pub indexes :
      (j : Key) (v : ℕ)
      → InUse j
      → get_index_by_token env o' j v ≡ (
          if key_eq k j && (t == v)
          then none
          else if key_eq k j && (u == v)
          then some i
          else get_index_by_token env o j v)
  pub balances :
      (j : Key)
      → InUse j
      → balance env o' j ≡ (if key_eq k j then balance env o k - 1 else balance env o j)

module _ {env : Env} {InUse : Key → Type 0} (free : NoCollision env InUse) where
  balance-set :
      (k j : Key) (l : Text) (d : ℕ) (o o' : OwnedTokens)
      → InUse k
      → InUse j
      → key_label env k ≡ some l
      → o'.balances ≡ set o.balances l d
      → balance env o' j ≡ (if key_eq k j then d else balance env o j)
  balance-set k j l d o o' p q e w =
      let (m, f) = free.label j q in
      let same = text_eq-label free k j l m p q e f in rw (f, w) (ground (arith, same))

  appended-Appended :
      (k : Key) (t : ℕ) (l : Text) (o : OwnedTokens)
      → InUse k
      → key_label env k ≡ some l
      → Appended env InUse k t o (appended env k t l o)
  appended-Appended k t l o p e = record {
    tokens = λ j x q. ground (arith, text_eq-slot free k j (balance env o k) x p q);
    indexes = λ j v q. ground (arith, text_eq-slot free k j t v p q);
    balances = λ j q.
        balance-set k j l (balance env o k + 1) o (appended env k t l o) p q e
          (ap (λ b. set o.balances l (b + 1)) (ap (balance_at o) (sym e)));
  }

  after_remove-Removed :
      (k : Key) (t u i n : ℕ) (l : Text) (o : OwnedTokens)
      → InUse k
      → key_label env k ≡ some l
      → balance env o k ≡ n
      → i < n
      → get_index_by_token env o k t ≡ some i
      → (get_index_by_token env o k u ≡ some (n - 1))
      → get_token_by_index env o k (n - 1) ≡ some u
      → Removed env InUse k t u i o (after_remove env (n == i + 1) k t u i (n - 1) l o)
  after_remove-Removed k t u i n l o p e b lt fi fu ft = record {
    tokens =
        λ j x q. ground (arith, text_eq-slot free k j (n - 1) x p q, text_eq-slot free k j i x p q);
    indexes = λ j v q. ground (arith, text_eq-slot free k j t v p q, text_eq-slot free k j u v p q);
    balances = λ j q.
        balance-set k j l (balance env o k - 1) o
          (after_remove env (n == i + 1) k t u i (n - 1) l o) p q e
          (balances-after_remove env (n == i + 1) k t u i (n - 1) l o
            ∙ ap (λ m. set o.balances l (m - 1)) (sym b));
  }

  -- `set_token` ends normally where the balance can grow, and files the token behind the last one.
  pub set_token-Appended :
      (k : Key) (t : ℕ) (o : OwnedTokens)
      → InUse k
      → balance env o k + 1 < 2 ^ 256
      → (o' : OwnedTokens) × (set_token env k t o ≡ done tt o') × Appended env InUse k t o o'
  set_token-Appended k t o p small =
      let (l, e) = free.label k p in
      let b = ap (balance_at o) e in
      (
        appended env k t l o,
        set_token-eq_done env k t l o e (omega arith),
        appended-Appended k t l o p e,
      )

  -- `remove_token` of a token that is filed consistently ends normally and closes the gap.
  pub remove_token-Removed :
      (k : Key) (t u i : ℕ) (o : OwnedTokens)
      → InUse k
      → i < balance env o k
      → balance env o k < 2 ^ 256
      → get_index_by_token env o k t ≡ some i
      → get_index_by_token env o k u ≡ some (balance env o k - 1)
      → get_token_by_index env o k (balance env o k - 1) ≡ some u
      → (o' : OwnedTokens) × (remove_token env k t o ≡ done tt o') × Removed env InUse k t u i o o'
  remove_token-Removed k t u i o p lt small fi fu ft =
      let (l, e) = free.label k p in
      let n = balance env o k in
      (
        after_remove env (n == i + 1) k t u i (n - 1) l o,
        remove_token-eq_done env k t u i n l o e (sym (ap (balance_at o) e)) lt small fi ft,
        after_remove-Removed k t u i n l o p e refl lt fi fu ft,
      )
