-- ===== src/Sequence/Tests.antt =====
-- Iteration over a sequence set (imap-types/src/sequence.rs).
use Prim.Native.Nat.{Ordering}
use imap_codec.Prelude.{inr, ◌<◌}
use imap_codec.Sequence.Types.{cmp}
use imap_codec.Sequence.Order.{normalize, partial_cmp, less, seq_min}
use imap_codec.Sequence.Order.Names.{normalize-Names, partial_cmp-Names}
use imap_codec.Sequence.Types.{from_non_zero, Sequence}
use imap_codec.Sequence.Iter.Ascending.{Names}
use imap_codec.Sequence.Convert.{
  pos, negsuc, half_open, try_from, sequence_from_range, try_from_half_open,
}
use imap_codec.Sequence.Convert.Ranges.{Holds, sequence_from_range-Names}
use imap_codec.Prelude.{codes, ok, refl}
use imap_codec.Core.VecN
use imap_codec.Fragmentizer.LineParser.{checked_mul, checked_add}
use imap_codec.Sequence.Parse.{
  from_str, from_sequences, split, extend_first, sequences_of_parts, sequence_from_str,
  sequence_of_parts, seq_or_uid_from_str, parse_non_zero_u32, parse_u32, parse_number, parse_digits,
}
use imap_codec.Prelude.{ℕ, ◌+◌, ◌≡◌, ◌↔◌, some, List, [], ◌∷◌, All, length, arith}
use imap_codec.Sequence.Types.{
  value, asterisk, single, range, SequenceSet, sequences, IsValidSequence, expand,
}
use imap_codec.Sequence.Iter.{SequenceSetIter, collect, iter, iter_naive}
use imap_codec.Sequence.Iter.Yield
use imap_codec.Sequence.Iter.Yield.{spelled, collect-iter_naive}
use imap_codec.Sequence.Iter.Elements.{Ascending, Elem}
use imap_codec.Sequence.Iter.Ascending.{Named, collect-iter}
use mathlib.Core.List.{cons-ne-nil}

-- `5:*,3,4:2`
abbrev sample : SequenceSet
sample = record {
  inner = record {
    inner = range (value 5) asterisk ∷ single (value 3) ∷ range (value 4) (value 2) ∷ [];
  };
}

abbrev sample_numbers : List ℕ
sample_numbers = 5 ∷ 6 ∷ 7 ∷ 3 ∷ 4 ∷ 3 ∷ 2 ∷ []

collect-iter_naive_example : collect 8 (iter_naive sample 7) ≡ some (spelled 7 (sequences sample))
unfolding Yield.numbers expand
collect-iter_naive_example = collect-iter_naive sample 7 8 (omega arith)

sample-IsValid : All IsValidSequence (sequences sample)
sample-IsValid = omega arith

collect-iter_example :
    (it : SequenceSetIter) × (out : List ℕ) × (iter sample 7 ≡ some it)
    × (collect (length out + 1) it ≡ some out)
    × Ascending 0 out
    × ((n : ℕ) → Elem n out ↔ Named 7 n (sequences sample))
collect-iter_example = collect-iter sample 7 (cons-ne-nil _ _) (omega arith) sample-IsValid

-- `NonZeroU32::from_str` accepts a `+`.
plus_sign :
    from_str (codes "+05") ≡ ok (record { inner = record { inner = single (value 5) ∷ [] } })
unfolding from_str from_sequences split extend_first sequences_of_parts sequence_from_str
    sequence_of_parts seq_or_uid_from_str parse_non_zero_u32 parse_u32 parse_number parse_digits
    checked_mul checked_add VecN.try_from VecN.validate
plus_sign = refl

-- The range `3..8` of a signed type.
sequence_from_range-Names_example :
    (s : Sequence) × (sequence_from_range (negsuc 127) (half_open (pos 3) (pos 8)) ≡ ok s)
    × ((n : ℕ) → Names 9 n s ↔ Holds 9 n (half_open (pos 3) (pos 8)))
sequence_from_range-Names_example =
    sequence_from_range-Names (negsuc 127) tt 9 (half_open (pos 3) (pos 8)) (omega arith)

-- `NonZeroU32` 5 up to 8: the start is lost.
lost_start : try_from_half_open 5 8 ≡ ok (range (value 1) (value 7))
unfolding try_from_half_open try_from from_non_zero
lost_start = refl

normalize-Names_example :
    Names 9 4 (normalize (range (value 5) (value 3))) ↔ Names 9 4 (range (value 5) (value 3))
normalize-Names_example = normalize-Names 9 4 (range (value 5) (value 3))

three_first : partial_cmp (single (value 3)) (range asterisk (value 5)) ≡ some Ordering.lt
unfolding partial_cmp less seq_min cmp
three_first = refl

partial_cmp-Names_example : 3 < 7
partial_cmp-Names_example =
    partial_cmp-Names 9 (single (value 3)) (range asterisk (value 5)) (omega arith)
      (tt, omega arith) three_first 3 7 (unfold expand in refl) (inr (unfold expand in omega arith))
