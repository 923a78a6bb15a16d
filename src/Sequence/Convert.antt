-- ===== src/Sequence/Convert.antt =====
-- Sequences from numbers and from ranges of them (imap-types/src/sequence.rs).
pub mod Ranges
use imap_codec.Prelude.{
  ℕ, zero, suc, ◌+◌, ◌-◌, ◌≤◌, ◌<◌, Bool, true, false, ◌&&◌, Result, ok, err, List, [], ◌∷◌, leb,
  ◌==◌, if◌then◌else◌, ◌>>=◌,
}
use imap_codec.Core.Validation.{Checked, fail, invalid}
use imap_codec.Core.VecN.{vec1_from}
use imap_codec.Sequence.Types.{
  u32_max, one, SeqOrUid, value, asterisk, Sequence, single, range, SequenceSet, from_non_zero,
}
use imap_codec.Sequence.Parse.{from_sequences}

-- An integer, as a value of any of the types that `impl_try_from_num` is called with.
pub data ℤ : Type 0 where
  pos : ℕ → ℤ
  negsuc : ℕ → ℤ

-- `u32::try_from` and `NonZeroU32::try_from`.
unfoldable pub try_from : ℤ → Checked SeqOrUid
try_from (pos n) = if leb 1 n && leb n u32_max then ok (value n) else fail invalid
try_from (negsuc n) = fail invalid

-- The same number as a `Sequence` and as a `SequenceSet`, and a slice of numbers.
unfoldable pub sequence_try_from : ℤ → Checked Sequence
unfolding try_from
sequence_try_from n = try_from n >>= λ a. ok (single a)

unfoldable pub set_from : Sequence → SequenceSet
unfolding vec1_from
set_from s = record { inner = vec1_from s }

unfoldable pub set_try_from : ℤ → Checked SequenceSet
unfolding sequence_try_from set_from
set_try_from n = sequence_try_from n >>= λ s. ok (set_from s)

unfoldable pub sequences_try_from : List ℤ → Checked (List Sequence)
unfolding sequence_try_from
sequences_try_from [] = ok []
sequences_try_from (n ∷ numbers) =
    sequence_try_from n >>= λ s. sequences_try_from numbers >>= λ checked. ok (s ∷ checked)

unfoldable pub set_try_from_slice : List ℤ → Checked SequenceSet
unfolding sequences_try_from from_sequences
set_try_from_slice numbers = sequences_try_from numbers >>= from_sequences

abbrev same_integer : ℤ → ℤ → Bool
same_integer (pos m) (pos n) = m == n
same_integer (pos m) (negsuc n) = false
same_integer (negsuc m) (pos n) = false
same_integer (negsuc m) (negsuc n) = m == n

abbrev predecessor : ℤ → ℤ
predecessor (pos zero) = negsuc 0
predecessor (pos (suc n)) = pos n
predecessor (negsuc n) = negsuc (suc n)

-- `saturating_sub(1)` in a type with the given least value.
unfoldable pub saturating_sub_one : ℤ → ℤ → ℤ
saturating_sub_one least n = if same_integer n least then n else predecessor n

-- The ranges of the standard library.
pub data Range : Type 0 where
  range_from : (start : ℤ) → Range
  range_to : (end : ℤ) → Range
  range_to_inclusive : (end : ℤ) → Range
  half_open : (start end : ℤ) → Range
  inclusive : (start end : ℤ) → Range

-- `impl_try_from_num_range` for a type with the given least value.
unfoldable pub sequence_from_range : ℤ → Range → Checked Sequence
unfolding try_from saturating_sub_one from_non_zero
sequence_from_range least (range_from start) = try_from start >>= λ a. ok (range a asterisk)
sequence_from_range least (range_to end) =
    try_from (saturating_sub_one least end) >>= λ b. ok (range (from_non_zero one) b)
sequence_from_range least (range_to_inclusive end) =
    try_from end >>= λ b. ok (range (from_non_zero one) b)
sequence_from_range least (half_open start end) =
    try_from start >>= λ a. try_from (saturating_sub_one least end) >>= λ b. ok (range a b)
sequence_from_range least (inclusive start end) =
    try_from start >>= λ a. try_from end >>= λ b. ok (range a b)

unfoldable pub set_from_range : ℤ → Range → Checked SequenceSet
unfolding sequence_from_range set_from
set_from_range least r = sequence_from_range least r >>= λ s. ok (set_from s)

-- The conversions of ranges of `NonZeroU32`. The one of a half-open range does not use its start.
unfoldable pub from_range_full : Sequence
unfolding from_non_zero
from_range_full = range (from_non_zero one) asterisk

unfoldable pub from_range_from : ℕ → Sequence
unfolding from_non_zero
from_range_from start = range (from_non_zero start) asterisk

unfoldable pub from_range_inclusive : ℕ → ℕ → Sequence
unfolding from_non_zero
from_range_inclusive start end = range (from_non_zero start) (from_non_zero end)

unfoldable pub from_range_to_inclusive : ℕ → Sequence
unfolding from_range_inclusive
from_range_to_inclusive end = from_range_inclusive one end

unfoldable pub try_from_half_open : ℕ → ℕ → Checked Sequence
unfolding from_non_zero try_from
try_from_half_open start end = try_from (pos (end - 1)) >>= λ b. ok (range (from_non_zero one) b)

unfoldable pub try_from_range_to : ℕ → Checked Sequence
unfolding try_from_half_open
try_from_range_to end = try_from_half_open one end
