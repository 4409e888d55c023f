-- ===== src/Prelude/Words.antt =====
-- The wrapping arithmetic of Rust's release profile on `u64`, `u128` and `i128`.
use Prim.Native.Nat.{ℕ, ◌+◌, ◌-◌, ◌*◌, ◌%◌, ◌^◌, ◌<◌}
use mathlib.Core.Path.{◌≡◌}
use native.Mathlib.Omega.{arith}
use casper_ve_cep.Prelude.Int.{ℤ, pos, ◌+ℤ◌, ◌-ℤ◌, ◌*ℤ◌, wrap_i128, IsI128, wrap_i128-of_IsI128}

-- `as u64` and `as u128` of a wider or equal unsigned word.
abbrev pub as_u64 : ℕ → ℕ
as_u64 a = a % 2 ^ 64

abbrev pub add_u64 : ℕ → ℕ → ℕ
add_u64 a b = (a + b) % 2 ^ 64

abbrev pub sub_u64 : ℕ → ℕ → ℕ
sub_u64 a b = (a + 2 ^ 64 - b) % 2 ^ 64

unfoldable pub mul_u64 : ℕ → ℕ → ℕ
mul_u64 a b = a * b % 2 ^ 64

abbrev pub add_u128 : ℕ → ℕ → ℕ
add_u128 a b = (a + b) % 2 ^ 128

abbrev pub sub_u128 : ℕ → ℕ → ℕ
sub_u128 a b = (a + 2 ^ 128 - b) % 2 ^ 128

unfoldable pub mul_u128 : ℕ → ℕ → ℕ
mul_u128 a b = a * b % 2 ^ 128

unfoldable pub add_i128 : ℤ → ℤ → ℤ
add_i128 a b = wrap_i128 (a +ℤ b)

unfoldable pub sub_i128 : ℤ → ℤ → ℤ
sub_i128 a b = wrap_i128 (a -ℤ b)

unfoldable pub mul_i128 : ℤ → ℤ → ℤ
mul_i128 a b = wrap_i128 (a *ℤ b)

-- Where the exact result fits, it is the result.
pub add_i128_exact : (a b : ℤ) → IsI128 (a +ℤ b) → add_i128 a b ≡ a +ℤ b
unfolding add_i128
add_i128_exact a b h = wrap_i128-of_IsI128 (a +ℤ b) h

pub sub_i128_exact : (a b : ℤ) → IsI128 (a -ℤ b) → sub_i128 a b ≡ a -ℤ b
unfolding sub_i128
sub_i128_exact a b h = wrap_i128-of_IsI128 (a -ℤ b) h

pub mul_i128_exact : (a b : ℤ) → IsI128 (a *ℤ b) → mul_i128 a b ≡ a *ℤ b
unfolding mul_i128
mul_i128_exact a b h = wrap_i128-of_IsI128 (a *ℤ b) h

pub *ℤ_pos : (a b : ℕ) → pos a *ℤ pos b ≡ pos (a * b)
unfolding ◌*ℤ◌
*ℤ_pos a b = ground arith

pub mul_i128_pos : (a b : ℕ) → a * b < 2 ^ 127 → mul_i128 (pos a) (pos b) ≡ pos (a * b)
unfolding mul_i128
mul_i128_pos a b h = rw *ℤ_pos (wrap_i128-of_IsI128 (pos (a * b)) h)
