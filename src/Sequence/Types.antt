-- ===== src/Sequence/Types.antt =====
-- The types of imap-types/src/sequence.rs. A `NonZeroU32` is a number from 1 to `u32::MAX`.
use Prim.Native.Nat.{compare, Ordering}
use imap_codec.Prelude.{ℕ, ◌-◌, ◌^◌, ◌≤◌, List, ◌==◌, if◌then◌else◌}
use imap_codec.Core.VecN.{Vec1}

abbrev pub u32_max : ℕ
u32_max = 2 ^ 32 - 1

-- `ONE` and `MIN`, and `MAX`.
abbrev pub one : ℕ
one = 1

-- Every number that a value of type `NonZeroU32` can be.
abbrev pub IsNonZero : ℕ → Type 0
IsNonZero n = (1 ≤ n) × (n ≤ u32_max)

pub data SeqOrUid : Type 0 where
  value : ℕ → SeqOrUid
  asterisk : SeqOrUid

pub data Sequence : Type 0 where
  single : SeqOrUid → Sequence
  range : SeqOrUid → SeqOrUid → Sequence

pub record SequenceSet : Type 0 where
  pub inner : Vec1 Sequence

abbrev pub sequences : SequenceSet → List Sequence
sequences set = set.inner.inner

unfoldable pub to_non_zero_u32 : SeqOrUid → ℕ
to_non_zero_u32 (value n) = n
to_non_zero_u32 asterisk = u32_max

unfoldable pub expand : SeqOrUid → ℕ → ℕ
expand (value n) largest = n
expand asterisk largest = largest

-- `From<NonZeroU32>`
unfoldable pub from_non_zero : ℕ → SeqOrUid
from_non_zero n = if n == u32_max then asterisk else value n

-- `Ord` and `PartialOrd`
unfoldable pub cmp : SeqOrUid → SeqOrUid → Ordering
cmp (value a) (value b) = compare a b
cmp asterisk asterisk = Ordering.eq
cmp (value a) asterisk = Ordering.lt
cmp asterisk (value b) = Ordering.gt

-- Every number in the value is a `NonZeroU32`.
abbrev pub IsValidSeq : SeqOrUid → Type 0
IsValidSeq (value n) = IsNonZero n
IsValidSeq asterisk = Unit

abbrev pub IsValidSequence : Sequence → Type 0
IsValidSequence (single a) = IsValidSeq a
IsValidSequence (range a b) = IsValidSeq a × IsValidSeq b
