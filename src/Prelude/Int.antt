-- ===== src/Prelude/Int.antt =====
-- Signed integers over the native numbers, and the 128-bit two's complement words of Rust.
use Prim.Native.Nat.{ℕ, suc, ◌+◌, ◌-◌, ◌*◌, ◌^◌, ◌%◌, ◌≤◌, ◌<◌}
use mathlib.Core.Path.{◌≡◌}
use mathlib.Core.Bool.{Bool, true, false}
use native.Mathlib.Omega.{arith}
use casper_ve_cep.Prelude.Tests.{ltb, leb, if◌then◌else◌}

-- `negsuc n` is -(n + 1).
pub data ℤ : Type 0 where
  pos : ℕ → ℤ
  negsuc : ℕ → ℤ

abbrev pub pos_part : ℤ → ℕ
pos_part (pos n) = n
pos_part (negsuc n) = 0

abbrev pub neg_part : ℤ → ℕ
neg_part (pos n) = 0
neg_part (negsuc n) = suc n

abbrev pub sub_ℕ : ℕ → ℕ → ℤ
sub_ℕ a b = if leb b a then pos (a - b) else negsuc (b - a - 1)

infixl 65 ◌+ℤ◌ ◌-ℤ◌
infixl 70 ◌*ℤ◌
infix 50 ◌≤ℤ◌
unfoldable pub ◌+ℤ◌ : ℤ → ℤ → ℤ
a +ℤ b = sub_ℕ (pos_part a + pos_part b) (neg_part a + neg_part b)

unfoldable pub ◌-ℤ◌ : ℤ → ℤ → ℤ
a -ℤ b = sub_ℕ (pos_part a + neg_part b) (neg_part a + pos_part b)

unfoldable pub ◌*ℤ◌ : ℤ → ℤ → ℤ
a *ℤ b =
    sub_ℕ (pos_part a * pos_part b + neg_part a * neg_part b)
      (pos_part a * neg_part b + neg_part a * pos_part b)

abbrev pub ◌≤ℤ◌ : ℤ → ℤ → Type 0
a ≤ℤ b = pos_part a + neg_part b ≤ pos_part b + neg_part a

abbrev pub is_neg : ℤ → Bool
is_neg (pos _) = false
is_neg (negsuc _) = true

-- `x as u128` of an i128: the bit pattern.
unfoldable pub u128_of : ℤ → ℕ
u128_of (pos n) = n % 2 ^ 128
u128_of (negsuc n) = 2 ^ 128 - 1 - n % 2 ^ 128

-- `x as i128` of a 128-bit pattern.
unfoldable pub i128_of : ℕ → ℤ
i128_of w =
    if ltb (w % 2 ^ 128) (2 ^ 127) then pos (w % 2 ^ 128) else negsuc (2 ^ 128 - 1 - w % 2 ^ 128)

-- What a wrapping i128 operation keeps of its exact result.
unfoldable pub wrap_i128 : ℤ → ℤ
wrap_i128 x = i128_of (u128_of x)

-- The values of an i128.
abbrev pub IsI128 : ℤ → Type 0
IsI128 (pos n) = n < 2 ^ 127
IsI128 (negsuc n) = n < 2 ^ 127

pub wrap_i128-of_IsI128 : (x : ℤ) → IsI128 x → wrap_i128 x ≡ x
unfolding wrap_i128 i128_of u128_of
wrap_i128-of_IsI128 (pos n) h = ground arith
wrap_i128-of_IsI128 (negsuc n) h = ground arith

pub i128_of_small : (n : ℕ) → n < 2 ^ 127 → i128_of n ≡ pos n
unfolding i128_of
i128_of_small n h = ground arith

pub wrap_i128-IsI128 : (x : ℤ) → IsI128 (wrap_i128 x)
unfolding wrap_i128 i128_of
wrap_i128-IsI128 x = ground arith

pub +ℤ_parts :
    (a b : ℤ)
    → pos_part (a +ℤ b) + neg_part a + neg_part b ≡ neg_part (a +ℤ b) + pos_part a + pos_part b
unfolding ◌+ℤ◌
+ℤ_parts a b = ground arith

pub -ℤ_parts :
    (a b : ℤ)
    → pos_part (a -ℤ b) + neg_part a + pos_part b ≡ neg_part (a -ℤ b) + pos_part a + neg_part b
unfolding ◌-ℤ◌
-ℤ_parts a b = ground arith

pub eq_of_parts : (a b : ℤ) → pos_part a + neg_part b ≡ pos_part b + neg_part a → a ≡ b
eq_of_parts a b h = ground arith

pub ruleset int_laws = (arith, +ℤ_parts, -ℤ_parts, eq_of_parts)
