-- ===== src/Tests/Formats.antt =====
-- The byte formats over simple formats of the foreign crate: a number is one cell, and a list has its
-- length in front.
use casper_ve_cep.Prelude.{ap, ◌+◌, ℕ, refl, List, [], ◌∷◌, Option, none, some, length, arith}
use casper_ve_cep.Escrow.Bytes.{
  Decoded, decoded, refused, Format, Formats, split_at, locked_balance_format, point_format,
  checkpoint_format,
}
use casper_ve_cep.Escrow.Bytes.RoundTrip.{
  IsFormat, AreFormats, FitsLock, FitsPoint, FitsCheckpoint, split_at-append, storage-IsFormat,
}

abbrev read_cell : List ℕ → Decoded ℕ
read_cell [] = refused
read_cell (x ∷ rest) = decoded x rest

abbrev cell : Format ℕ
cell = record { to_bytes = λ n. n ∷ []; from_bytes = read_cell; serialized_length = λ n. 1 }

abbrev whole : Option (List ℕ × List ℕ) → Decoded (List ℕ)
whole none = refused
whole (some (front, rest)) = decoded front rest

abbrev read_list : List ℕ → Decoded (List ℕ)
read_list [] = refused
read_list (n ∷ b) = whole (split_at n b)

abbrev prefixed : Format (List ℕ)
prefixed = record {
  to_bytes = λ xs. length xs ∷ xs;
  from_bytes = read_list;
  serialized_length = λ xs. 1 + length xs;
}

abbrev formats : Formats
formats = record { u64_format = cell; u128_format = cell; list_format = prefixed }

abbrev AnyList : List ℕ → Type 0
AnyList xs = Unit

formats-AreFormats : AreFormats formats AnyList
formats-AreFormats = record {
  u64 = record { round_trip = λ n rest h. refl; sized = λ n h. refl };
  u128 = record { round_trip = λ n rest h. refl; sized = λ n h. refl };
  list = record {
    round_trip = λ xs rest h. ap whole (split_at-append (length xs) xs rest refl);
    sized = λ xs h. omega arith;
  };
  u64_length = λ n m. refl;
}

storage-IsFormat_example :
    IsFormat (locked_balance_format formats) FitsLock
    × IsFormat (point_format formats) FitsPoint
    × IsFormat (checkpoint_format formats) (FitsCheckpoint AnyList)
storage-IsFormat_example = storage-IsFormat formats formats-AreFormats
