-- ===== src/Sequence/Normalize/Rebuilt.antt =====
-- The sequences that `SequenceSet::normalize` (imap-types/src/sequence.rs) makes of merged ranges.
use imap_codec.Prelude.{
  ℕ, ◌+◌, ◌-◌, ◌<◌, ◌≡◌, ◌∙◌, ◌↔◌, ◌⊎◌, refl, ap, true, ◌||◌, List, [], ◌∷◌, map, All, arith, leb,
  ◌==◌, Bool-cases, inl, inr,
}
use imap_codec.Sequence.Types.{
  u32_max, IsNonZero, Sequence, single, range, value, asterisk, to_non_zero_u32, from_non_zero,
  IsValidSequence, IsValidSeq, expand, cmp,
}
use imap_codec.Sequence.Iter.{Pairs, saturating_suc}
use imap_codec.Sequence.Iter.Ascending.{Names, Named}
use imap_codec.Sequence.Order
use imap_codec.Sequence.Order.{less, same_seq}
use imap_codec.Sequence.Normalize.{
  range_contains, rebuilt, sort_key, sort_sequences, insert_sequence,
}
use imap_codec.Sequence.Normalize.Covered.{IsRange, covered}
use imap_codec.Sequence.Normalize.Merged.{IsSeparatedFrom}

-- The last number that a sequence with its ends in order names.
abbrev pub greatest : Sequence → ℕ
greatest (single a) = to_non_zero_u32 a
greatest (range a b) = to_non_zero_u32 b

-- Each sequence ends more than one number in front of the next one.
abbrev pub IsGapped : List Sequence → Type 0
IsGapped [] = Unit
IsGapped (s ∷ []) = Unit
IsGapped (s ∷ t ∷ seqs) = (greatest s + 1 < sort_key t) × IsGapped (t ∷ seqs)

from_non_zero-IsValidSeq : (n : ℕ) → IsNonZero n → IsValidSeq (from_non_zero n)
unfolding from_non_zero
from_non_zero-IsValidSeq n h = elim (Bool-cases (n == u32_max)) [ inl e ↦ rw e tt | inr e ↦ rw e h ]

module _ (a b : ℕ) (h : IsRange (a, b)) where
  -- The three forms of a rebuilt sequence.
  rebuilt_cases :
      ((rebuilt (a, b) ≡ single (from_non_zero a)) × (b ≡ saturating_suc a))
      ⊎ (((rebuilt (a, b) ≡ range (value a) asterisk) × (a + 1 < b) × (b ≡ u32_max))
          ⊎ ((rebuilt (a, b) ≡ range (value a) (value (b - 1))) × (a + 1 < b) × (b < u32_max)))
  unfolding rebuilt from_non_zero
  rebuilt_cases = elim (Bool-cases (a == b || saturating_suc a == b)) [
    | inl e ↦ inl (rw e, ground arith)
    | inr e ↦ elim (Bool-cases (b == u32_max)) [
      | inl e' ↦ inr (inl (rw (e, e') (ground arith), ground arith, ground arith))
      | inr e' ↦ inr (inr (rw (e, e') (ground arith), ground arith, ground arith))
    ]
  ]

  key : sort_key (rebuilt (a, b)) ≡ a
  unfolding sort_key to_non_zero_u32 from_non_zero
  key = elim rebuilt_cases [
    | inl (e, same) ↦ rw e (ground arith)
    | inr (inl (e, lt, end)) ↦ rw e
    | inr (inr (e, lt, end)) ↦ rw e
  ]

  -- The number behind the last one, as far as there is one.
  greatest-rebuilt : saturating_suc (greatest (rebuilt (a, b))) ≡ b
  unfolding to_non_zero_u32 from_non_zero
  greatest-rebuilt = elim rebuilt_cases [
    | inl (e, same) ↦ rw e (ground arith)
    | inr (inl (e, lt, end)) ↦ rw e (omega arith)
    | inr (inr (e, lt, end)) ↦ rw e (omega arith)
  ]

  rebuilt-IsValidSequence : IsValidSequence (rebuilt (a, b))
  rebuilt-IsValidSequence = elim rebuilt_cases [
    | inl (e, same) ↦ rw e (from_non_zero-IsValidSeq a (h.0, omega arith))
    | inr (inl (e, lt, end)) ↦ rw e (omega arith, tt)
    | inr (inr (e, lt, end)) ↦ rw e (omega arith)
  ]

  normalize-rebuilt : Order.normalize (rebuilt (a, b)) ≡ rebuilt (a, b)
  unfolding Order.normalize same_seq less cmp
  normalize-rebuilt = elim rebuilt_cases [
    | inl (e, same) ↦ rw e
    | inr (inl (e, lt, end)) ↦ rw e
    | inr (inr (e, lt, end)) ↦ rw e (ground arith)
  ]

  rebuilt-Names :
      (n : ℕ) → n < u32_max → (range_contains (a, b) n ≡ true) ↔ Names u32_max n (rebuilt (a, b))
  unfolding expand from_non_zero
  rebuilt-Names n small = elim rebuilt_cases [
    | inl (e, same) ↦ rw e ((λ c. ground arith), λ c. ground arith)
    | inr (inl (e, lt, end)) ↦
        rw e ((λ c. inl (ground arith)), elim [ inl c ↦ ground arith | inr c ↦ ground arith ])
    | inr (inr (e, lt, end)) ↦
        rw e ((λ c. inl (ground arith)), elim [ inl c ↦ ground arith | inr c ↦ ground arith ])
  ]

pub rebuilt-Named :
    (n : ℕ) (ranges : Pairs)
    → n < u32_max
    → All IsRange ranges
    → (covered n ranges ≡ true) ↔ Named u32_max n (map rebuilt ranges)
rebuilt-Named n [] small h = ((λ e. cc), λ e. absurd e)
rebuilt-Named n (r ∷ ranges) small (hr, h) =
    let here = rebuilt-Names r.0 r.1 hr n small in
    let rest = rebuilt-Named n ranges small h in
    (
      (λ e. elim (Bool-cases (range_contains r n)) [
        | inl c ↦ inl (here.0 c)
        | inr c ↦ inr (rest.0 (ground arith))
      ]),
      elim [ inl c ↦ rw (here.1 c) | inr c ↦ ground (arith, rest.1 c) ],
    )

pub valid_rebuilt_each :
    (ranges : Pairs)
    → All IsRange ranges
    → All IsValidSequence (map rebuilt ranges)
      × (map Order.normalize (map rebuilt ranges) ≡ map rebuilt ranges)
valid_rebuilt_each [] h = (tt, refl)
valid_rebuilt_each (r ∷ ranges) (hr, h) =
    let (valid, same) = valid_rebuilt_each ranges h in
    (
      (rebuilt-IsValidSequence r.0 r.1 hr, valid),
      ap (λ (s : Sequence). s ∷ map Order.normalize (map rebuilt ranges))
            (normalize-rebuilt r.0 r.1 hr)
          ∙ ap (λ (l : List Sequence). rebuilt r ∷ l) same,
    )

-- Rebuilt ranges are sorted already.
pub sort_sequences-rebuilt :
    (end : ℕ) (ranges : Pairs)
    → IsSeparatedFrom end ranges
    → All IsRange ranges
    → sort_sequences (map rebuilt ranges) ≡ map rebuilt ranges
unfolding sort_sequences insert_sequence
sort_sequences-rebuilt end [] sep h = refl
sort_sequences-rebuilt end (r ∷ []) sep h = refl
sort_sequences-rebuilt end (r ∷ q ∷ ranges) (lt, le, sep) (hr, (hq, h)) =
    let rest = sort_sequences-rebuilt r.1 (q ∷ ranges) sep (hq, h) in
    let below : leb (sort_key (rebuilt r)) (sort_key (rebuilt q)) ≡ true =
      rw (key r.0 r.1 hr, key q.0 q.1 hq) (ground arith) in
    ap (insert_sequence (rebuilt r)) rest ∙ rw below

-- Between two neighbours there is a number that neither names.
pub rebuilt-IsGapped :
    (end : ℕ) (ranges : Pairs)
    → IsSeparatedFrom end ranges
    → All IsRange ranges
    → IsGapped (map rebuilt ranges)
rebuilt-IsGapped end [] sep h = tt
rebuilt-IsGapped end (r ∷ []) sep h = tt
rebuilt-IsGapped end (r ∷ q ∷ ranges) (lt, le, sep) (hr, (hq, h)) = (
  omega (arith, key q.0 q.1 hq, greatest-rebuilt r.0 r.1 hr),
  rebuilt-IsGapped r.1 (q ∷ ranges) sep (hq, h),
)
