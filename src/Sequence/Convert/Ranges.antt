-- ===== src/Sequence/Convert/Ranges.antt =====
-- Which numbers the sequence of a range names (imap-types/src/sequence.rs).
use imap_codec.Prelude.{ℕ, zero, suc, ◌+◌, ◌≤◌, ◌<◌, ◌≡◌, ◌↔◌, inl, refl, ok, arith}
use imap_codec.Sequence.Types.{
  u32_max, IsNonZero, value, asterisk, Sequence, range, expand, from_non_zero,
}
use imap_codec.Sequence.Iter.Ascending.{Names}
use imap_codec.Sequence.Convert.{
  ℤ, pos, negsuc, try_from, saturating_sub_one, Range, range_from, range_to, range_to_inclusive,
  half_open, inclusive, sequence_from_range,
}

-- A range of numbers that can stand in a sequence set, and is not empty.
abbrev pub IsProper : ℕ → Range → Type 0
IsProper largest (range_from (pos a)) = IsNonZero a × (a ≤ largest)
IsProper largest (range_to (pos b)) = (1 < b) × (b ≤ u32_max + 1)
IsProper largest (range_to_inclusive (pos b)) = IsNonZero b
IsProper largest (half_open (pos a) (pos b)) = (1 ≤ a) × (a < b) × (b ≤ u32_max + 1)
IsProper largest (inclusive (pos a) (pos b)) = (1 ≤ a) × (a ≤ b) × (b ≤ u32_max)
IsProper largest _ = ⊥

-- The number is positive and in the range, which ends at `largest` if it has no end of its own.
abbrev pub Holds : ℕ → ℕ → Range → Type 0
Holds largest n (range_from (pos a)) = (a ≤ n) × (n ≤ largest)
Holds largest n (range_to (pos b)) = (1 ≤ n) × (n < b)
Holds largest n (range_to_inclusive (pos b)) = (1 ≤ n) × (n ≤ b)
Holds largest n (half_open (pos a) (pos b)) = (a ≤ n) × (n < b)
Holds largest n (inclusive (pos a) (pos b)) = (a ≤ n) × (n ≤ b)
Holds largest n _ = ⊥

-- The least value of an integer type is not above 0.
abbrev pub IsLeast : ℤ → Type 0
IsLeast (pos zero) = Unit
IsLeast (pos (suc n)) = ⊥
IsLeast (negsuc n) = Unit

saturating_sub_one-suc :
    (least : ℤ) → IsLeast least → (n : ℕ) → saturating_sub_one least (pos (suc n)) ≡ pos n
unfolding saturating_sub_one
saturating_sub_one-suc (pos zero) h n = ground arith
saturating_sub_one-suc (pos (suc m)) h n = absurd h
saturating_sub_one-suc (negsuc m) h n = refl

try_from-IsNonZero : (n : ℕ) → IsNonZero n → try_from (pos n) ≡ ok (value n)
unfolding try_from
try_from-IsNonZero n h = ground arith

-- In any integer type whose least value is not above 0, a range that is not empty and whose ends
-- can stand in a sequence set becomes a sequence, and this names exactly the positive numbers of
-- the range, up to the largest number if the range has no end.
pub sequence_from_range-Names :
    (least : ℤ)
    → IsLeast least
    → (largest : ℕ) (r : Range) → IsProper largest r
    → (s : Sequence) × (sequence_from_range least r ≡ ok s)
      × ((n : ℕ) → Names largest n s ↔ Holds largest n r)
unfolding sequence_from_range from_non_zero expand
sequence_from_range-Names least ok_least largest (range_from (pos a)) (h, le) =
    (range (value a) asterisk, rw (try_from-IsNonZero a h), λ n. (λ e. grind arith, λ e. inl e))
sequence_from_range-Names least ok_least largest (range_to (pos zero)) h = absurd (omega arith)
sequence_from_range-Names least ok_least largest (range_to (pos (suc b))) h = (
  range (value 1) (value b),
  rw (saturating_sub_one-suc least ok_least b, try_from-IsNonZero b (omega arith)),
  λ n. (λ e. grind arith, λ e. inl (omega arith)),
)
sequence_from_range-Names least ok_least largest (range_to_inclusive (pos b)) h =
    (range (value 1) (value b), rw (try_from-IsNonZero b h), λ n. (λ e. grind arith, λ e. inl e))
sequence_from_range-Names least ok_least largest (half_open (pos a) (pos zero)) h =
    absurd (omega arith)
sequence_from_range-Names least ok_least largest (half_open (pos a) (pos (suc b))) h = (
  range (value a) (value b),
  rw (
    saturating_sub_one-suc least ok_least b,
    try_from-IsNonZero a (omega arith),
    try_from-IsNonZero b (omega arith),
  ),
  λ n. (λ e. grind arith, λ e. inl (omega arith)),
)
sequence_from_range-Names least ok_least largest (inclusive (pos a) (pos b)) h = (
  range (value a) (value b),
  rw (try_from-IsNonZero a (omega arith), try_from-IsNonZero b (omega arith)),
  λ n. (λ e. grind arith, λ e. inl e),
)
sequence_from_range-Names least ok_least largest (range_from (negsuc a)) h = absurd h
sequence_from_range-Names least ok_least largest (range_to (negsuc b)) h = absurd h
sequence_from_range-Names least ok_least largest (range_to_inclusive (negsuc b)) h = absurd h
sequence_from_range-Names least ok_least largest (half_open (negsuc a) b) h = absurd h
sequence_from_range-Names least ok_least largest (half_open (pos a) (negsuc b)) h = absurd h
sequence_from_range-Names least ok_least largest (inclusive (negsuc a) b) h = absurd h
sequence_from_range-Names least ok_least largest (inclusive (pos a) (negsuc b)) h = absurd h
