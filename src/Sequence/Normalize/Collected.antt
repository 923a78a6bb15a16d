-- ===== src/Sequence/Normalize/Collected.antt =====
-- What the first loop of `SequenceSet::normalize` (imap-types/src/sequence.rs) collects.
use imap_codec.Prelude.{
  ℕ, ◌≤◌, ◌<◌, ◌≡◌, ◌∙◌, ◌⊎◌, ◌↔◌, inl, inr, refl, sym, true, false, List, [], ◌∷◌, All, arith,
  Bool-cases,
}
use imap_codec.Sequence.Types.{
  u32_max, IsNonZero, Sequence, single, range, value, asterisk, to_non_zero_u32, IsValidSequence,
  SeqOrUid, IsValidSeq, expand, cmp,
}
use imap_codec.Sequence.Iter.{Pairs}
use imap_codec.Sequence.Iter.Ascending.{Names, Named}
use imap_codec.Sequence.Order
use imap_codec.Sequence.Order.{less, same_seq}
use imap_codec.Sequence.Order.Names.{normalize-Names}
use imap_codec.Sequence.Normalize.{
  range_contains, contains, collect_singles, collect_ranges, add_single, insert_single, to_range,
}
use imap_codec.Sequence.Normalize.Covered.{IsRange, covered, IsCoveredSingle}
use imap_codec.Sequence.Normalize.Singles.{All-contains, IsIteration}

-- A sequence whose ends are in order.
abbrev pub IsInOrder : Sequence → Type 0
IsInOrder (single a) = IsNonZero (to_non_zero_u32 a)
IsInOrder (range a b) =
    IsNonZero (to_non_zero_u32 a)
    × IsNonZero (to_non_zero_u32 b)
    × (to_non_zero_u32 a ≤ to_non_zero_u32 b)

IsNonZero-to_non_zero : (a : SeqOrUid) → IsValidSeq a → IsNonZero (to_non_zero_u32 a)
unfolding to_non_zero_u32
IsNonZero-to_non_zero (value n) h = h
IsNonZero-to_non_zero asterisk h = (omega arith, omega arith)

less-le :
    (a b : SeqOrUid)
    → IsValidSeq a
    → IsValidSeq b
    → less b a ≡ false
    → to_non_zero_u32 a ≤ to_non_zero_u32 b
unfolding less cmp to_non_zero_u32
less-le (value a) (value b) ha hb e = ground arith
less-le (value a) asterisk ha hb e = ha.1
less-le asterisk (value b) ha hb e = cc
less-le asterisk asterisk ha hb e = omega arith

less-ge :
    (a b : SeqOrUid)
    → IsValidSeq a
    → IsValidSeq b
    → less b a ≡ true
    → to_non_zero_u32 b ≤ to_non_zero_u32 a
unfolding less cmp to_non_zero_u32
less-ge (value a) (value b) ha hb e = ground arith
less-ge (value a) asterisk ha hb e = cc
less-ge asterisk (value b) ha hb e = hb.1
less-ge asterisk asterisk ha hb e = omega arith

normalize-IsInOrder : (s : Sequence) → IsValidSequence s → IsInOrder (Order.normalize s)
unfolding Order.normalize
normalize-IsInOrder (single a) h = IsNonZero-to_non_zero a h
normalize-IsInOrder (range a b) (ha, hb) = elim (Bool-cases (same_seq a b)) [
  | inl e ↦ rw e (IsNonZero-to_non_zero a ha)
  | inr e ↦ elim (Bool-cases (less b a)) [
    | inl e' ↦
        rw (e, e') (IsNonZero-to_non_zero b hb, IsNonZero-to_non_zero a ha, less-ge a b ha hb e')
    | inr e' ↦
        rw (e, e') (IsNonZero-to_non_zero a ha, IsNonZero-to_non_zero b hb, less-le a b ha hb e')
  ]
]

to_range-IsRange : (s : Sequence) → IsInOrder s → IsRange (to_range s)
unfolding to_range
to_range-IsRange (single a) h = omega arith
to_range-IsRange (range a b) h = omega arith

pub collect_ranges-IsRange :
    (seqs : List Sequence) → All IsValidSequence seqs → All IsRange (collect_ranges seqs)
unfolding collect_ranges
collect_ranges-IsRange [] h = tt
collect_ranges-IsRange (s ∷ seqs) (hs, h) =
    (to_range-IsRange (Order.normalize s) (normalize-IsInOrder s hs), collect_ranges-IsRange seqs h)

to_non_zero_u32-expand : (a : SeqOrUid) → to_non_zero_u32 a ≡ expand a u32_max
unfolding to_non_zero_u32 expand
to_non_zero_u32-expand (value n) = refl
to_non_zero_u32-expand asterisk = refl

-- Below the largest number, a range holds what the sequence names.
to_range-Names :
    (n : ℕ) (s : Sequence)
    → n < u32_max
    → IsInOrder s
    → (range_contains (to_range s) n ≡ true) ↔ Names u32_max n s
unfolding to_range
to_range-Names n (single a) lt h =
    ((λ e. ground (arith, to_non_zero_u32-expand a)), λ e. ground (arith, to_non_zero_u32-expand a))
to_range-Names n (range a b) lt h =
    rw (← to_non_zero_u32-expand a, ← to_non_zero_u32-expand b)
      ((λ e. inl (ground arith)), elim [ inl e ↦ ground arith | inr e ↦ ground arith ])

pub collect_ranges-Named :
    (n : ℕ) (seqs : List Sequence)
    → n < u32_max
    → All IsValidSequence seqs
    → (covered n (collect_ranges seqs) ≡ true) ↔ Named u32_max n seqs
unfolding collect_ranges
collect_ranges-Named n [] lt h = ((λ e. cc), λ e. absurd e)
collect_ranges-Named n (s ∷ seqs) lt (hs, h) =
    let here = to_range-Names n (Order.normalize s) lt (normalize-IsInOrder s hs) in
    let same = normalize-Names u32_max n s in
    let rest = collect_ranges-Named n seqs lt h in
    (
      (λ e. elim (Bool-cases (range_contains (to_range (Order.normalize s)) n)) [
        | inl c ↦ inl (same.0 (here.0 c))
        | inr c ↦ inr (rest.0 (ground arith))
      ]),
      elim [ inl c ↦ rw (here.1 (same.1 c)) | inr c ↦ ground (arith, rest.1 c) ],
    )

-- A single number gives rise to a range of its own.
module _ (n : ℕ) where
  own_range :
      (s : Sequence) (set : List ℕ) (ranges : Pairs)
      → IsInOrder s
      → contains n (add_single s set) ≡ true
      → (contains n set ≡ true) ⊎ IsCoveredSingle (to_range s ∷ ranges) n
  unfolding add_single insert_single to_range
  own_range (range a b) set ranges h e = inl e
  own_range (single a) set ranges h e = elim (Bool-cases (contains n set)) [
    | inl e' ↦ inl e'
    | inr e' ↦
        let same : to_non_zero_u32 a ≡ n = ground arith in
        inr (omega arith, (λ lt. ground arith), λ le. ground arith)
  ]

  IsCoveredSingle-cons :
      (r : ℕ × ℕ) (ranges : Pairs) → IsCoveredSingle ranges n → IsCoveredSingle (r ∷ ranges) n
  IsCoveredSingle-cons r ranges (pos, low, high) =
      (pos, (λ lt. ground (arith, low lt)), λ le. ground (arith, high le))

  collected :
      (set : List ℕ) (seqs : List Sequence)
      → All IsValidSequence seqs
      → contains n (collect_singles set seqs) ≡ true
      → (contains n set ≡ true) ⊎ IsCoveredSingle (collect_ranges seqs) n
  unfolding collect_singles collect_ranges
  collected set [] h e = inl e
  collected set (s ∷ seqs) (hs, h) e =
      let s' = Order.normalize s in
      elim (collected (add_single s' set) seqs h e) [
        | inl e' ↦ own_range s' set (collect_ranges seqs) (normalize-IsInOrder s hs) e'
        | inr c ↦ inr (IsCoveredSingle-cons (to_range s') (collect_ranges seqs) c)
      ]

pub collect_singles-IsCoveredSingle :
    (order : List ℕ → List ℕ) (seqs : List Sequence)
    → IsIteration order
    → All IsValidSequence seqs
    → All (IsCoveredSingle (collect_ranges seqs)) (order (collect_singles [] seqs))
collect_singles-IsCoveredSingle order seqs fair h =
    All-contains (IsCoveredSingle (collect_ranges seqs)) (order (collect_singles [] seqs)) λ n e.
      elim (collected n [] seqs h (sym (fair (collect_singles [] seqs) n) ∙ e)) [
        | inl e' ↦ cc
        | inr c ↦ c
      ]
