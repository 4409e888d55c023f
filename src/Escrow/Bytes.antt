-- ===== src/Escrow/Bytes.antt =====
-- The byte formats under which dictionaries keep locks, points and checkpoints (ve/src/I128.rs, and
-- `ToBytes` and `FromBytes` in ve/src/vedata.rs). The formats of `U128`, `u64` and `Vec<u64>` are those
-- of a foreign crate and a parameter.
pub mod RoundTrip
use casper_ve_cep.Prelude.{
  ℕ, zero, suc, ◌+◌, ◌*◌, List, [], ◌∷◌, ◌++◌, Option, none, some, ℤ, u128_of, i128_of, le_bytes,
  of_le_bytes,
}
use casper_ve_cep.Escrow.State.{LockedBalance, Point}
use casper_ve_cep.Votes.State.{Checkpoint}

-- What `from_bytes` gives: a value and the bytes behind it, an `Err`, or a panic.
pub data Decoded (A : Type 0) : Type 0 where
  decoded : A → List ℕ → Decoded A
  refused : Decoded A
  panicked : Decoded A

-- `let (a, remainder) = ..?`
infixl 5 ◌then◌
abbrev pub ◌then◌ : {A B : Type 0} → Decoded A → (A → List ℕ → Decoded B) → Decoded B
decoded a rest then f = f a rest
refused then f = refused
panicked then f = panicked

-- A format: `to_bytes`, `from_bytes` and `serialized_length`.
pub record Format (A : Type 0) : Type 0 where
  pub to_bytes : A → List ℕ
  pub from_bytes : List ℕ → Decoded A
  pub serialized_length : A → ℕ

-- The formats of the foreign crate.
pub record Formats : Type 0 where
  pub u64_format : Format ℕ
  pub u128_format : Format ℕ
  pub list_format : Format (List ℕ)

-- `b[0..n]` and the rest, if there are so many.
unfoldable pub split_at : ℕ → List ℕ → Option (List ℕ × List ℕ)
split_at zero b = some ([], b)
split_at (suc n) [] = none
split_at (suc n) (x ∷ b) = elim (split_at n b) [
  | none ↦ none
  | some (front, rest) ↦ some (x ∷ front, rest)
]

-- `impl ToBytes for I128` and `impl FromBytes for I128`: fewer than 16 bytes are a panic.
abbrev pub i128_of_front : Option (List ℕ × List ℕ) → Decoded ℤ
i128_of_front none = panicked
i128_of_front (some (front, rest)) = decoded (i128_of (of_le_bytes front)) rest

unfoldable pub i128_from_bytes : List ℕ → Decoded ℤ
i128_from_bytes b = i128_of_front (split_at 16 b)

abbrev pub i128_format : Format ℤ
i128_format = record {
  to_bytes = λ x. le_bytes 16 (u128_of x);
  from_bytes = i128_from_bytes;
  serialized_length = λ x. 16;
}

module _ (formats : Formats) where
  open formats use {u64_format, u128_format, list_format}

  abbrev pub locked_balance_format : Format LockedBalance
  locked_balance_format = record {
    to_bytes = λ l. u128_format.to_bytes l.amount ++ u64_format.to_bytes l.end;
    from_bytes = λ b. u128_format.from_bytes b then λ amount rest.
        u64_format.from_bytes rest then λ end rest'.
        decoded (record { amount = amount; end = end }) rest';
    serialized_length =
        λ l. u128_format.serialized_length l.amount + u64_format.serialized_length l.end;
  }

  abbrev pub point_format : Format Point
  point_format = record {
    to_bytes = λ p.
        i128_format.to_bytes p.bias
        ++ (i128_format.to_bytes p.slope
            ++ (u64_format.to_bytes p.ts ++ u64_format.to_bytes p.blk));
    from_bytes = λ b. i128_from_bytes b then λ bias rest. i128_from_bytes rest then λ slope rest₁.
        u64_format.from_bytes rest₁ then λ ts rest₂. u64_format.from_bytes rest₂ then λ blk rest₃.
        decoded (record { bias = bias; slope = slope; ts = ts; blk = blk }) rest₃;
    serialized_length =
        λ p. i128_format.serialized_length p.bias * 2 + u64_format.serialized_length p.ts * 2;
  }

  abbrev pub checkpoint_format : Format Checkpoint
  checkpoint_format = record {
    to_bytes = λ c. u128_format.to_bytes c.timestamp ++ list_format.to_bytes c.token_ids;
    from_bytes = λ b. u128_format.from_bytes b then λ timestamp rest.
        list_format.from_bytes rest then λ token_ids rest'.
        decoded (record { timestamp = timestamp; token_ids = token_ids }) rest';
    serialized_length =
        λ c. u128_format.serialized_length c.timestamp + list_format.serialized_length c.token_ids;
  }
