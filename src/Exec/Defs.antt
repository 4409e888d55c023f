-- ===== src/Exec/Defs.antt =====
-- The outcome of contract code and the actions that the source is written with.
use casper_ve_cep.Prelude.{ℕ, Bool, true, false, Option, none, some, ◌+◌, ◌-◌, ◌^◌, ltb, leb}
use casper_ve_cep.Prelude.{◌≡◌, refl, sym, ◌∙◌, arith, ◌⊎◌, inl, inr}
use casper_ve_cep.Errors.{VeError, ve_code, Error, error_code}

-- Why the host stopped a call.
pub data Failure : Type 0 where
  user : ℕ → Failure
  unexpected_key_variant : Failure
  missing_value : Failure
  callee_failed : Failure
  panic : Failure

pub data Outcome (S A : Type 0) : Type 0 where
  done : A → S → Outcome S A
  failed : Error → S → Outcome S A
  reverted : Failure → Outcome S A

abbrev pub Exec : Type 0 → Type 0 → Type 0
Exec S A = S → Outcome S A

-- `?` and early returns of `Err`: the rest is skipped.
infixl 5 ◌>>=◌ ◌>>◌
abbrev pub ◌>>=◌ : {S A B : Type 0} → Exec S A → (A → Exec S B) → Exec S B
◌>>=◌ m f s = elim (m s) [
  | done a s' ↦ f a s'
  | failed e s' ↦ failed e s'
  | reverted r ↦ reverted r
]

abbrev pub ◌>>◌ : {S B : Type 0} → Exec S (Unit {0}) → Exec S B → Exec S B
m >> k = m >>= λ _. k

abbrev pub pure : {S A : Type 0} → A → Exec S A
pure a s = done a s

-- `return Err(e)`
abbrev pub throw : {S A : Type 0} → Error → Exec S A
throw e s = failed e s

abbrev pub revert : {S A : Type 0} → Failure → Exec S A
revert r s = reverted r

abbrev pub gets : {S A : Type 0} → (S → A) → Exec S A
gets f s = done (f s) s

abbrev pub modify : {S : Type 0} → (S → S) → Exec S (Unit {0})
modify f s = done tt (f s)

abbrev pub skip : {S : Type 0} → Exec S (Unit {0})
skip s = done tt s

-- `if !test { return Err(e) }`
abbrev pub ensure : {S : Type 0} → Bool → Error → Exec S (Unit {0})
ensure true e s = done tt s
ensure false e s = failed e s

-- `if !test { .. }`
abbrev pub unless : {S : Type 0} → Bool → Exec S (Unit {0}) → Exec S (Unit {0})
unless true m s = done tt s
unless false m s = m s

-- An `Option` under `unwrap_or_revert` and under `unwrap`.
abbrev pub or_revert : {S A : Type 0} → Option A → Exec S A
or_revert none s = reverted missing_value
or_revert (some a) s = done a s

abbrev pub unwrap : {S A : Type 0} → Option A → Exec S A
unwrap none s = reverted panic
unwrap (some a) s = done a s

-- A `Result` under `unwrap_or_revert`: `Err(e)` stops the call with the code of `e`.
abbrev pub result_or_revert : {S A : Type 0} → Exec S A → Exec S A
result_or_revert m s = elim (m s) [
  | done a s' ↦ done a s'
  | failed e s' ↦ reverted (user (error_code e))
  | reverted r ↦ reverted r
]

-- `utils::require`
abbrev pub require : {S : Type 0} → Bool → VeError → Exec S (Unit {0})
require true e s = done tt s
require false e s = reverted (user (ve_code e))

-- A value that is computed without panic only if the test holds.
abbrev pub checked : {S A : Type 0} → Bool → A → Exec S A
checked true a s = done a s
checked false a s = reverted panic

-- The operators of `U256`, which panic where the result does not fit.
unfoldable pub u256_add : {S : Type 0} → ℕ → ℕ → Exec S ℕ
u256_add a b = checked (ltb (a + b) (2 ^ 256)) (a + b)

unfoldable pub u256_sub : {S : Type 0} → ℕ → ℕ → Exec S ℕ
u256_sub a b = checked (leb b a) (a - b)

-- `as_u64` and `as_u128`, which panic where the value does not fit.
unfoldable pub narrow : {S : Type 0} → ℕ → ℕ → Exec S ℕ
narrow w a = checked (ltb a (2 ^ w)) a

-- A part of the state under its own action.
abbrev pub zoom : {S T A : Type 0} → (S → T) → (S → T → S) → Exec T A → Exec S A
zoom part put m s = elim (m (part s)) [
  | done a t ↦ done a (put s t)
  | failed e t ↦ failed e (put s t)
  | reverted r ↦ reverted r
]

-- The rest of a block after a step that ended normally, that failed, and that was stopped.
module _ {S A B : Type 0} (m : Exec S A) (f : A → Exec S B) (s : S) where
  pub >>=-eq_done : {a : A} {s' : S} → m s ≡ done a s' → (m >>= f) s ≡ f a s'
  >>=-eq_done e = rw (e, ◌>>=◌)

  pub >>=-eq_failed : {e : Error} {s' : S} → m s ≡ failed e s' → (m >>= f) s ≡ failed e s'
  >>=-eq_failed e = rw (e, ◌>>=◌)

-- How a call can end.
pub Outcome-cases :
    {S A : Type 0} (o : Outcome S A)
    → ((a : A) × (s : S) × (o ≡ done a s))
      ⊎ (((e : Error) × (s : S) × (o ≡ failed e s)) ⊎ ((r : Failure) × (o ≡ reverted r)))
Outcome-cases (done a s) = inl (a, s, refl)
Outcome-cases (failed e s) = inr (inl (e, s, refl))
Outcome-cases (reverted r) = inr (inr (r, refl))

-- A block that ended normally has ended each of its steps normally.
pub >>=-done :
    {S A B : Type 0} (m : Exec S A) (f : A → Exec S B) (s : S) {b : B} {s'' : S}
    → (m >>= f) s ≡ done b s''
    → (a : A) × (s' : S) × (m s ≡ done a s') × (f a s' ≡ done b s'')
>>=-done m f s h = elim (Outcome-cases (m s)) [
  | inl (a, s', e) ↦ (a, s', e, sym (>>=-eq_done m f s e) ∙ h)
  | inr (inl (e, s', failed_at)) ↦ absurd (ground arith)
  | inr (inr (r, stopped)) ↦ absurd (ground arith)
]
