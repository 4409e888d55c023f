-- ===== src/Prelude/Lists.antt =====
-- Lists measured and indexed by native numbers, and texts as lists of character codes.
use Prim.Native.Nat.{ℕ, zero, suc, ◌+◌, ◌-◌, ◌*◌, ◌/◌, ◌%◌, ◌≤◌}
use mathlib.Core.Path.{◌≡◌, refl, sym, ap, ◌∙◌}
use mathlib.Core.Logic.{inl, inr}
use mathlib.Core.Bool.{Bool, true, false, ◌&&◌}
use mathlib.Core.List.{List, [], ◌∷◌, ◌++◌}
use mathlib.Core.Option.{Option, none, some}
use Prim.Native.Char.{code}
use Prim.Native.String.{String}
use native.Mathlib.Omega.{arith}
use casper_ve_cep.Prelude.Tests.{ltb, ◌==◌, if◌then◌else◌, Bool-cases}

module _ {ℓ} {A : Type ℓ} where
  abbrev pub length : List A → ℕ
  length [] = 0
  length (x ∷ xs) = suc (length xs)

  abbrev pub get_elem? : List A → ℕ → Option A
  get_elem? [] i = none
  get_elem? (x ∷ xs) zero = some x
  get_elem? (x ∷ xs) (suc i) = get_elem? xs i

  abbrev pub is_some : Option A → Bool
  is_some none = false
  is_some (some _) = true

  -- `unwrap_or`
  abbrev pub get_or : Option A → A → A
  get_or none d = d
  get_or (some a) _ = a

  pub length-append : (xs ys : List A) → length (xs ++ ys) ≡ length xs + length ys
  length-append [] ys = omega arith
  length-append (x ∷ xs) ys = omega (arith, length-append xs ys)

-- A Rust string, by its character codes.
abbrev pub Text : Type 0
Text = List ℕ

-- The character codes of a literal.
abbrev pub codes : String → Text
codes String.[] = []
codes (String.◌∷◌ c s) = code c ∷ codes s

unfoldable pub text_eq : Text → Text → Bool
text_eq [] [] = true
text_eq [] (y ∷ ys) = false
text_eq (x ∷ xs) [] = false
text_eq (x ∷ xs) (y ∷ ys) = (x == y) && text_eq xs ys

pub text_eq_sound : (a b : Text) → text_eq a b ≡ true → a ≡ b
unfolding text_eq
text_eq_sound [] [] h = refl
text_eq_sound [] (y ∷ ys) h = cc
text_eq_sound (x ∷ xs) [] h = cc
text_eq_sound (x ∷ xs) (y ∷ ys) h = ground (arith, text_eq_sound xs ys)

pub text_eq_refl : (a : Text) → text_eq a a ≡ true
unfolding text_eq
text_eq_refl [] = refl
text_eq_refl (x ∷ xs) = ground (arith, text_eq_refl xs)

-- The decimal digits of a number, most significant first: `to_string` on a Rust integer. The fuel
-- is the number itself, and each round divides it by ten.
digits_onto : ℕ → ℕ → Text → Text
digits_onto zero n acc = (48 + n % 10) ∷ acc
digits_onto (suc fuel) n acc =
    let rest = digits_onto fuel (n / 10) ((48 + n % 10) ∷ acc) in
    if ltb n 10 then (48 + n) ∷ acc else rest

unfoldable pub to_string : ℕ → Text
unfolding digits_onto
to_string n = digits_onto n n []

-- The number that digits spell, behind a number already read.
value : ℕ → Text → ℕ
value n [] = n
value n (c ∷ cs) = value (n * 10 + (c - 48)) cs

value-digits_onto :
    (fuel n : ℕ) (acc : Text) → n ≤ fuel → value 0 (digits_onto fuel n acc) ≡ value n acc
unfolding value digits_onto
value-digits_onto zero n acc le =
    let e : 0 * 10 + ((48 + n % 10) - 48) ≡ n = omega arith in ap (λ (k : ℕ). value k acc) e
value-digits_onto (suc fuel) n acc le = elim (Bool-cases (ltb n 10)) [
  | inl short ↦
      let e : 0 * 10 + ((48 + n) - 48) ≡ n = omega arith in rw short (ap (λ (k : ℕ). value k acc) e)
  | inr long ↦
      let e : n / 10 * 10 + ((48 + n % 10) - 48) ≡ n = omega arith in
      let le' : n / 10 ≤ fuel = ground arith in
      rw long
        (value-digits_onto fuel (n / 10) ((48 + n % 10) ∷ acc) le' ∙ ap (λ (k : ℕ). value k acc) e)
]

-- Decimal notation is read back.
value-to_string : (n : ℕ) → value 0 (to_string n) ≡ n
unfolding to_string value
value-to_string n = value-digits_onto n n [] (omega arith)

pub to_string-injective : (a b : ℕ) → to_string a ≡ to_string b → a ≡ b
to_string-injective a b h = sym (value-to_string a) ∙ ap (value 0) h ∙ value-to_string b

-- Two numbers have one item key exactly if they are equal.
pub text_eq-to_string : (a b : ℕ) → text_eq (to_string a) (to_string b) ≡ (a == b)
text_eq-to_string a b = elim (Bool-cases (a == b)) [
  | inl same ↦
      let e : a ≡ b = ground arith in
      ap (λ (k : ℕ). text_eq (to_string a) (to_string k)) (sym e)
      ∙ text_eq_refl (to_string a)
      ∙ sym same
  | inr other ↦ elim (Bool-cases (text_eq (to_string a) (to_string b))) [
    | inr apart ↦ apart ∙ sym other
    | inl same ↦ let e = to_string-injective a b (text_eq_sound _ _ same) in absurd (ground arith)
  ]
]

-- `to_le_bytes` of a word of `n` bytes, and `from_le_bytes`.
unfoldable pub le_bytes : ℕ → ℕ → List ℕ
le_bytes zero v = []
le_bytes (suc n) v = (v % 256) ∷ le_bytes n (v / 256)

unfoldable pub of_le_bytes : List ℕ → ℕ
of_le_bytes [] = 0
of_le_bytes (b ∷ bs) = b + 256 * of_le_bytes bs
