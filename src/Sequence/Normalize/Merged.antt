-- ===== src/Sequence/Normalize/Merged.antt =====
-- `merge_ranges` (imap-types/src/sequence.rs): the order of the ranges, and the numbers in them.
use imap_codec.Prelude.{
  ℕ, ◌≤◌, ◌<◌, ◌≡◌, ◌∙◌, refl, ap, Bool, ◌||◌, [], ◌∷◌, All, arith, leb, max, Bool-cases, inl, inr,
}
use imap_codec.Sequence.Iter.{Pairs}
use imap_codec.Sequence.Normalize.{
  range_contains, insert_range, sort_ranges, merge_from, merge_sorted, merge_ranges,
}
use imap_codec.Sequence.Normalize.Covered.{IsRange, covered}

-- Every start is at least the one in front of it, the first one at least `a`.
abbrev pub IsSortedFrom : ℕ → Pairs → Type 0
IsSortedFrom a [] = Unit
IsSortedFrom a (r ∷ ranges) = (a ≤ r.0) × IsSortedFrom r.0 ranges

-- Between a range and the next one a number is missing; the first start is above `end`.
abbrev pub IsSeparatedFrom : ℕ → Pairs → Type 0
IsSeparatedFrom end [] = Unit
IsSeparatedFrom end (r ∷ ranges) = (end < r.0) × (r.0 ≤ r.1) × IsSeparatedFrom r.1 ranges

pub IsSortedFrom-le :
    (a b : ℕ) (ranges : Pairs) → a ≤ b → IsSortedFrom b ranges → IsSortedFrom a ranges
IsSortedFrom-le a b [] le h = tt
IsSortedFrom-le a b (r ∷ ranges) le (h, hs) = ((omega arith), hs)

insert_range-IsSortedFrom :
    (a : ℕ) (r : ℕ × ℕ) (ranges : Pairs)
    → a ≤ r.0
    → IsSortedFrom a ranges
    → IsSortedFrom a (insert_range r ranges)
unfolding insert_range
insert_range-IsSortedFrom a r [] le h = (le, tt)
insert_range-IsSortedFrom a r (q ∷ ranges) le (h, hs) = elim (Bool-cases (leb r.0 q.0)) [
  | inl e ↦ rw e (le, (ground arith, hs))
  | inr e ↦ rw e (h, insert_range-IsSortedFrom q.0 r ranges (ground arith) hs)
]

pub sort_ranges-IsSortedFrom : (ranges : Pairs) → IsSortedFrom 0 (sort_ranges ranges)
unfolding sort_ranges
sort_ranges-IsSortedFrom [] = tt
sort_ranges-IsSortedFrom (r ∷ ranges) =
    insert_range-IsSortedFrom 0 r (sort_ranges ranges) (omega arith)
      (sort_ranges-IsSortedFrom ranges)

pub insert_range-IsRange :
    (r : ℕ × ℕ) (ranges : Pairs)
    → IsRange r
    → All IsRange ranges
    → All IsRange (insert_range r ranges)
unfolding insert_range
insert_range-IsRange r [] hr h = (hr, tt)
insert_range-IsRange r (q ∷ ranges) hr (hq, h) = elim (Bool-cases (leb r.0 q.0)) [
  | inl e ↦ rw e (hr, (hq, h))
  | inr e ↦ rw e (hq, insert_range-IsRange r ranges hr h)
]

pub sort_ranges-IsRange : (ranges : Pairs) → All IsRange ranges → All IsRange (sort_ranges ranges)
unfolding sort_ranges
sort_ranges-IsRange [] h = tt
sort_ranges-IsRange (r ∷ ranges) (hr, h) =
    insert_range-IsRange r (sort_ranges ranges) hr (sort_ranges-IsRange ranges h)

module _ (n : ℕ) where
  covered-insert_range :
      (r : ℕ × ℕ) (ranges : Pairs) → covered n (insert_range r ranges) ≡ covered n (r ∷ ranges)
  unfolding insert_range
  covered-insert_range r [] = refl
  covered-insert_range r (q ∷ ranges) = ground (arith, covered-insert_range r ranges)

  covered-sort_ranges : (ranges : Pairs) → covered n (sort_ranges ranges) ≡ covered n ranges
  unfolding sort_ranges
  covered-sort_ranges [] = refl
  covered-sort_ranges (r ∷ ranges) =
      covered-insert_range r (sort_ranges ranges)
      ∙ ap (λ (b : Bool). range_contains r n || b) (covered-sort_ranges ranges)

  -- Two ranges that overlap or touch hold what their union holds.
  covered-joined :
      (a b c d : ℕ)
      → a ≤ c
      → c ≤ b
      → range_contains (a, max b d) n ≡ (range_contains (a, b) n || range_contains (c, d) n)
  covered-joined a b c d h h' = ground arith

  covered-merge_from :
      (last : ℕ × ℕ) (ranges : Pairs)
      → IsSortedFrom last.0 ranges
      → covered n (merge_from last ranges) ≡ covered n (last ∷ ranges)
  unfolding merge_from
  covered-merge_from last [] h = refl
  covered-merge_from (a, b) ((c, d) ∷ ranges) (h, hs) = elim (Bool-cases (leb c b)) [
    | inl e ↦
        let hs' = IsSortedFrom-le a c ranges h hs in
        rw e (
          covered-merge_from (a, max b d) ranges hs'
          ∙ rw (covered-joined a b c d h (ground arith)) (ground arith))
    | inr e ↦ rw (e, covered-merge_from (c, d) ranges hs)
  ]

  covered-merge_sorted :
      (ranges : Pairs) → IsSortedFrom 0 ranges → covered n (merge_sorted ranges) ≡ covered n ranges
  unfolding merge_sorted
  covered-merge_sorted [] h = refl
  covered-merge_sorted (r ∷ ranges) (le, h) = covered-merge_from r ranges h

  -- Merging does not change which numbers the ranges hold.
  pub covered-merge_ranges : (ranges : Pairs) → covered n (merge_ranges ranges) ≡ covered n ranges
  unfolding merge_ranges
  covered-merge_ranges ranges =
      covered-merge_sorted (sort_ranges ranges) (sort_ranges-IsSortedFrom ranges)
      ∙ covered-sort_ranges ranges

merge_from-IsSeparatedFrom :
    (end : ℕ) (last : ℕ × ℕ) (ranges : Pairs)
    → end < last.0
    → IsRange last
    → IsSortedFrom last.0 ranges
    → All IsRange ranges
    → IsSeparatedFrom end (merge_from last ranges) × All IsRange (merge_from last ranges)
unfolding merge_from
merge_from-IsSeparatedFrom end last [] lt hl h hs = ((lt, hl.1, tt), (hl, tt))
merge_from-IsSeparatedFrom end (a, b) ((c, d) ∷ ranges) lt hl (h, hs) (hr, hrs) =
    elim (Bool-cases (leb c b)) [
      | inl e ↦ rw e (
          merge_from-IsSeparatedFrom end (a, max b d) ranges lt (omega arith)
            (IsSortedFrom-le a c ranges h hs) hrs)
      | inr e ↦
          let (sep, all_ranges) =
            merge_from-IsSeparatedFrom b (c, d) ranges (ground arith) hr hs hrs in
          rw e ((lt, hl.1, sep), (hl, all_ranges))
    ]

merge_sorted-IsSeparatedFrom :
    (ranges : Pairs)
    → IsSortedFrom 0 ranges
    → All IsRange ranges
    → IsSeparatedFrom 0 (merge_sorted ranges) × All IsRange (merge_sorted ranges)
unfolding merge_sorted
merge_sorted-IsSeparatedFrom [] h hs = (tt, tt)
merge_sorted-IsSeparatedFrom (r ∷ ranges) (le, h) (hr, hs) =
    merge_from-IsSeparatedFrom 0 r ranges hr.0 hr h hs

-- The merged ranges are sorted, and neither overlap nor touch.
pub merge_ranges-IsSeparatedFrom :
    (ranges : Pairs)
    → All IsRange ranges
    → IsSeparatedFrom 0 (merge_ranges ranges) × All IsRange (merge_ranges ranges)
unfolding merge_ranges
merge_ranges-IsSeparatedFrom ranges h =
    merge_sorted-IsSeparatedFrom (sort_ranges ranges) (sort_ranges-IsSortedFrom ranges)
      (sort_ranges-IsRange ranges h)
