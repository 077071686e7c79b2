-- ===== src/Audio/Durations/Decoding.antt =====
-- pkg/parser/audio: the reads and the decoding of numbers that the probes of the formats share.
use go_toolkit.Prelude.{
  ℕ, zero, suc, ◌+◌, ◌-◌, ◌*◌, ◌/◌, ◌%◌, ◌≤◌, ◌<◌, ◌≡◌, refl, Bool, true, false, not, ◌&&◌, ◌||◌,
  none, some, List, [], ◌∷◌, ltb, ◌==◌, if◌then◌else◌, Bytes, length, get_elem?, get_or, take,
  slice, slice-clip, drop, arith,
}
use go_toolkit.Prelude.Int.{ℤ}
use go_toolkit.Prelude.Panic.{Run, done, panic, ◌>>=◌, checked_slice, checked_slice-done, index}
use go_toolkit.Fetcher.Resource.{Resource, ok, err}

-- float64, with what the probes use of it: conversions of integers and of bit patterns, 1.1, the
-- sign, powers of 2, and the operations and tests of the processor
pub record Floats (F : Type 0) : Type 0 where
  pub from_ℕ : ℕ → F
  pub from_bits32 : ℕ → F
  pub from_bits64 : ℕ → F
  pub eleven_tenths : F
  pub negate : F → F
  pub power_of_two : ℤ → F
  pub times : F → F → F
  pub over : F → F → F
  pub below : F → F → Bool
  pub at_most : F → F → Bool

-- bytes.Equal and bytes.HasPrefix
unfoldable pub equal_bytes : Bytes → Bytes → Bool
equal_bytes [] [] = true
equal_bytes [] (y ∷ ys) = false
equal_bytes (x ∷ xs) [] = false
equal_bytes (x ∷ xs) (y ∷ ys) = x == y && equal_bytes xs ys

unfoldable pub has_prefix : Bytes → Bytes → Bool
has_prefix bs prefix = equal_bytes (take (length prefix) bs) prefix

-- the numbers of encoding/binary, of any width; the accumulator holds the bytes that went before
abbrev pub from_be : ℕ → Bytes → ℕ
from_be acc [] = acc
from_be acc (b ∷ bs) = from_be (acc * 256 + b) bs

abbrev pub from_le : Bytes → ℕ
from_le [] = 0
from_le (b ∷ bs) = b + 256 * from_le bs

-- binary.BigEndian.UintN(bs[lo:hi]) and its little-endian companion, for hi - lo bytes
unfoldable pub be_at : Bytes → ℕ → ℕ → Run ℕ
be_at bs lo hi = checked_slice bs lo hi >>= λ s. done (from_be 0 s)

unfoldable pub le_at : Bytes → ℕ → ℕ → Run ℕ
le_at bs lo hi = checked_slice bs lo hi >>= λ s. done (from_le s)

-- `xs[i]` of a table
unfoldable pub entry {ℓ} : {A : Type ℓ} → List A → ℕ → Run A
entry xs i = elim (get_elem? xs i) [ some x ↦ done x | none ↦ panic ]

unfoldable pub read_range : Resource → ℕ → ℕ → Bytes
read_range r offset n =
    if n == 0 then [] else elim (r.read offset (offset + n - 1)) [ ok bs ↦ bs | err x ↦ [] ]

-- four bytes of seven bits from `i` on, as skipID3v2 and synchsafe read them
unfoldable pub synchsafe_at : Bytes → ℕ → Run ℕ
synchsafe_at b i = do
  b0 ← index b i
  b1 ← index b (i + 1)
  b2 ← index b (i + 2)
  b3 ← index b (i + 3)
  done (b0 % 128 * 2097152 + b1 % 128 * 16384 + b2 % 128 * 128 + b3 % 128)

abbrev pub id3 : Bytes
id3 = b'I' ∷ b'D' ∷ b'3' ∷ []

-- the footer is announced by bit 4 of byte 5
unfoldable pub skip_id3v2 : Resource → Run ℕ
skip_id3v2 r =
    let header = read_range r 0 10 in
    if ltb (length header) 10 || not (has_prefix header id3) then done 0 else do
      size ← synchsafe_at header 6
      flags ← index header 5
      done (10 + size + (if flags / 16 % 2 == 1 then 10 else 0))

pub index-done : (xs : Bytes) (i : ℕ) → i < length xs → index xs i ≡ done (get_or xs i 0)
unfolding index
index-done [] i h = absurd (omega arith)
index-done (x ∷ xs) zero h = refl
index-done (x ∷ xs) (suc i) h = index-done xs i (omega arith)

-- `xs[i:]`
pub rest-done :
    (xs : Bytes) (i : ℕ) → i ≤ length xs → checked_slice xs i (length xs) ≡ done (drop i xs)
rest-done xs i h =
    rw
      (
        checked_slice-done xs i (length xs) h (omega arith),
        slice-clip xs i (length xs) (omega arith),
      )
      refl

pub be_at-done :
    (bs : Bytes) (lo hi : ℕ)
    → lo ≤ hi
    → hi ≤ length bs
    → be_at bs lo hi ≡ done (from_be 0 (slice bs lo hi))
unfolding be_at
be_at-done bs lo hi h k = rw (checked_slice-done bs lo hi h k) refl

pub le_at-done :
    (bs : Bytes) (lo hi : ℕ)
    → lo ≤ hi
    → hi ≤ length bs
    → le_at bs lo hi ≡ done (from_le (slice bs lo hi))
unfolding le_at
le_at-done bs lo hi h k = rw (checked_slice-done bs lo hi h k) refl
