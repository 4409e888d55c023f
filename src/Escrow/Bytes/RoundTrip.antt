-- ===== src/Escrow/Bytes/RoundTrip.antt =====
-- What is written to a dictionary is read back (ve/src/I128.rs and ve/src/vedata.rs).
use casper_ve_cep.Prelude.{
  ℕ, zero, suc, ◌+◌, ◌*◌, ◌/◌, ◌^◌, ◌<◌, ◌≡◌, refl, ◌∙◌, ap, List, [], ◌∷◌, ◌++◌, some, ℤ, pos,
  negsuc, IsI128, wrap_i128-of_IsI128, wrap_i128, u128_of, i128_of, le_bytes, of_le_bytes, length,
  length-append, arith,
}
use casper_ve_cep.Escrow.State.{LockedBalance, Point}
use casper_ve_cep.Votes.State.{Checkpoint}
use casper_ve_cep.Escrow.Bytes.{
  decoded, Format, Formats, split_at, i128_from_bytes, i128_of_front, i128_format,
  locked_balance_format, point_format, checkpoint_format,
}

-- A format reads back what it has written, whatever follows, and announces its length, for every value
-- that has the property `Fits`.
pub record IsFormat {A : Type 0} (f : Format A) (Fits : A → Type 0) : Type 0 where
  pub round_trip :
      (a : A) (rest : List ℕ) → Fits a → f.from_bytes (f.to_bytes a ++ rest) ≡ decoded a rest
  pub sized : (a : A) → Fits a → length (f.to_bytes a) ≡ f.serialized_length a

-- The greatest value of `n` bytes, and one.
abbrev bytes_bound : ℕ → ℕ
bytes_bound zero = 1
bytes_bound (suc n) = 256 * bytes_bound n

of_le_bytes-le_bytes : (n v : ℕ) → v < bytes_bound n → of_le_bytes (le_bytes n v) ≡ v
unfolding of_le_bytes le_bytes
of_le_bytes-le_bytes zero v h = omega arith
of_le_bytes-le_bytes (suc n) v h = omega (arith, of_le_bytes-le_bytes n (v / 256) (omega arith))

length-le_bytes : (n v : ℕ) → length (le_bytes n v) ≡ n
unfolding le_bytes
length-le_bytes zero v = refl
length-le_bytes (suc n) v = omega (arith, length-le_bytes n (v / 256))

pub split_at-append :
    (n : ℕ) (xs ys : List ℕ) → length xs ≡ n → split_at n (xs ++ ys) ≡ some (xs, ys)
unfolding split_at
split_at-append zero [] ys h = refl
split_at-append zero (x ∷ xs) ys h = absurd (omega arith)
split_at-append (suc n) [] ys h = absurd (omega arith)
split_at-append (suc n) (x ∷ xs) ys h = rw (split_at-append n xs ys (omega arith)) refl

u128_of-bounded : (x : ℤ) → u128_of x < 2 ^ 128
unfolding u128_of
u128_of-bounded (pos n) = omega arith
u128_of-bounded (negsuc n) = omega arith

i128_of-u128_of : (x : ℤ) → IsI128 x → i128_of (u128_of x) ≡ x
unfolding wrap_i128
i128_of-u128_of x h = wrap_i128-of_IsI128 x h

i128_format-IsFormat : IsFormat i128_format IsI128
unfolding i128_from_bytes
i128_format-IsFormat = record {
  round_trip = λ x rest fits.
      ap i128_of_front
        (split_at-append 16 (le_bytes 16 (u128_of x)) rest (length-le_bytes 16 (u128_of x)))
      ∙ (ap (λ (v : ℕ). decoded (i128_of v) rest)
            (of_le_bytes-le_bytes 16 (u128_of x) (u128_of-bounded x))
          ∙ ap (λ (y : ℤ). decoded y rest) (i128_of-u128_of x fits));
  sized = λ x fits. length-le_bytes 16 (u128_of x);
}

-- The documented behaviour of the foreign formats: numbers of their width, and lists of such numbers.
pub record AreFormats (formats : Formats) (FitsList : List ℕ → Type 0) : Type 0 where
  pub u64 : IsFormat formats.u64_format (λ n. n < 2 ^ 64)
  pub u128 : IsFormat formats.u128_format (λ n. n < 2 ^ 128)
  pub list : IsFormat formats.list_format FitsList
  pub u64_length :
      (n m : ℕ) → formats.u64_format.serialized_length n ≡ formats.u64_format.serialized_length m

abbrev pub FitsLock : LockedBalance → Type 0
FitsLock l = (l.amount < 2 ^ 128) × (l.end < 2 ^ 64)

abbrev pub FitsPoint : Point → Type 0
FitsPoint p = IsI128 p.bias × IsI128 p.slope × (p.ts < 2 ^ 64) × (p.blk < 2 ^ 64)

abbrev pub FitsCheckpoint : (List ℕ → Type 0) → Checkpoint → Type 0
FitsCheckpoint FitsList c = (c.timestamp < 2 ^ 128) × FitsList c.token_ids

append_assoc : (xs ys zs : List ℕ) → (xs ++ ys) ++ zs ≡ xs ++ (ys ++ zs)
append_assoc [] ys zs = refl
append_assoc (x ∷ xs) ys zs = ap (λ (l : List ℕ). x ∷ l) (append_assoc xs ys zs)

module _ (formats : Formats) {FitsList : List ℕ → Type 0} (laws : AreFormats formats FitsList) where
  open formats use {u64_format, u128_format, list_format}

  locked_balance-round_trip :
      (l : LockedBalance) (rest : List ℕ)
      → FitsLock l
      → (locked_balance_format formats).from_bytes
          ((locked_balance_format formats).to_bytes l ++ rest)
        ≡ decoded l rest
  locked_balance-round_trip l rest fits =
      rw
        (
          append_assoc (u128_format.to_bytes l.amount) (u64_format.to_bytes l.end) rest,
          laws.u128.round_trip l.amount (u64_format.to_bytes l.end ++ rest) fits.0,
          laws.u64.round_trip l.end rest fits.1,
        )
        refl

  checkpoint-round_trip :
      (c : Checkpoint) (rest : List ℕ)
      → FitsCheckpoint FitsList c
      → (checkpoint_format formats).from_bytes ((checkpoint_format formats).to_bytes c ++ rest)
        ≡ decoded c rest
  checkpoint-round_trip c rest fits =
      rw
        (
          append_assoc (u128_format.to_bytes c.timestamp) (list_format.to_bytes c.token_ids) rest,
          laws.u128.round_trip c.timestamp (list_format.to_bytes c.token_ids ++ rest) fits.0,
          laws.list.round_trip c.token_ids rest fits.1,
        )
        refl

  point-round_trip :
      (p : Point) (rest : List ℕ)
      → FitsPoint p
      → (point_format formats).from_bytes ((point_format formats).to_bytes p ++ rest)
        ≡ decoded p rest
  point-round_trip p rest fits =
      let tail = u64_format.to_bytes p.ts ++ u64_format.to_bytes p.blk in
      rw
        (
          append_assoc (le_bytes 16 (u128_of p.bias)) (le_bytes 16 (u128_of p.slope) ++ tail) rest,
          i128_format-IsFormat.round_trip p.bias ((le_bytes 16 (u128_of p.slope) ++ tail) ++ rest)
              fits.0,
          append_assoc (le_bytes 16 (u128_of p.slope)) tail rest,
          i128_format-IsFormat.round_trip p.slope (tail ++ rest) fits.1,
          append_assoc (u64_format.to_bytes p.ts) (u64_format.to_bytes p.blk) rest,
          laws.u64.round_trip p.ts (u64_format.to_bytes p.blk ++ rest) fits.2,
          laws.u64.round_trip p.blk rest fits.3,
        )
        refl

  sum_of_parts : (a b : List ℕ) (n m : ℕ) → length a ≡ n → length b ≡ m → length (a ++ b) ≡ n + m
  sum_of_parts a b n m e f = omega (arith, length-append a b)

  point-sized :
      (p : Point)
      → FitsPoint p
      → length ((point_format formats).to_bytes p) ≡ (point_format formats).serialized_length p
  point-sized p fits =
      let times = sum_of_parts _ _ _ _ (laws.u64.sized p.ts fits.2) (laws.u64.sized p.blk fits.3) in
      let behind = sum_of_parts _ _ _ _ (i128_format-IsFormat.sized p.slope fits.1) times in
      let all = sum_of_parts _ _ _ _ (i128_format-IsFormat.sized p.bias fits.0) behind in
      omega (arith, all, laws.u64_length p.ts p.blk)

  -- Where the formats of the foreign crate read back what they have written, so do those of locks,
  -- points and checkpoints, whatever bytes follow, for all values of their fields' words; and the
  -- length that each announces is the length of what it writes.
  pub storage-IsFormat :
      IsFormat (locked_balance_format formats) FitsLock
      × IsFormat (point_format formats) FitsPoint
      × IsFormat (checkpoint_format formats) (FitsCheckpoint FitsList)
  storage-IsFormat = (
    record {
      round_trip = locked_balance-round_trip;
      sized = λ l fits.
          sum_of_parts _ _ _ _ (laws.u128.sized l.amount fits.0) (laws.u64.sized l.end fits.1);
    },
    record { round_trip = point-round_trip; sized = point-sized },
    record {
      round_trip = checkpoint-round_trip;
      sized = λ c fits.
          sum_of_parts _ _ _ _ (laws.u128.sized c.timestamp fits.0)
            (laws.list.sized c.token_ids fits.1);
    },
  )
