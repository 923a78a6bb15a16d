-- ===== src/Sequence/Normalize/Named.antt =====
-- `SequenceSet::normalize` (imap-types/src/sequence.rs) as a whole.
use imap_codec.Prelude.{ℕ, ◌<◌, ◌≡◌, ◌∙◌, ◌↔◌, sym, List, [], map, All, append-nil}
use imap_codec.Sequence.Types.{u32_max, Sequence, SequenceSet, sequences, IsValidSequence}
use imap_codec.Sequence.Iter.Ascending.{Named}
use imap_codec.Sequence.Order
use imap_codec.Sequence.Normalize.{
  collect_singles, collect_ranges, visited_by, merged, rebuilt, normalized, normalize,
}
use imap_codec.Sequence.Normalize.Covered.{IsRange, covered}
use imap_codec.Sequence.Normalize.Singles.{
  IsIteration, covered-visited_by, visited_by-IsRange, remaining_singles_none, order-nil,
  kept_singles-nil,
}
use imap_codec.Sequence.Normalize.Collected.{
  collect_ranges-IsRange, collect_ranges-Named, collect_singles-IsCoveredSingle,
}
use imap_codec.Sequence.Normalize.Merged.{
  IsSeparatedFrom, covered-merge_ranges, merge_ranges-IsSeparatedFrom,
}
use imap_codec.Sequence.Normalize.Rebuilt.{
  IsGapped, rebuilt-Named, valid_rebuilt_each, sort_sequences-rebuilt, rebuilt-IsGapped,
}

module _ (order : List ℕ → List ℕ) (fair : IsIteration order) (seqs : List Sequence)
    (valid : All IsValidSequence seqs) where
  pub merged-IsSeparatedFrom :
      IsSeparatedFrom 0 (merged order seqs) × All IsRange (merged order seqs)
  unfolding merged
  merged-IsSeparatedFrom =
      merge_ranges-IsSeparatedFrom
        (visited_by (order (collect_singles [] seqs)) (collect_ranges seqs))
        (visited_by-IsRange (order (collect_singles [] seqs)) (collect_ranges seqs)
          (collect_ranges-IsRange seqs valid)
          (collect_singles-IsCoveredSingle order seqs fair valid))

  pub covered-merged : (n : ℕ) → covered n (merged order seqs) ≡ covered n (collect_ranges seqs)
  unfolding merged
  covered-merged n =
      covered-merge_ranges n (visited_by (order (collect_singles [] seqs)) (collect_ranges seqs))
      ∙ covered-visited_by (order (collect_singles [] seqs)) (collect_ranges seqs) n
          (collect_ranges-IsRange seqs valid)
          (collect_singles-IsCoveredSingle order seqs fair valid)

  -- No single number is left behind the ranges.
  pub normalized-rebuilt : normalized order seqs ≡ map rebuilt (merged order seqs)
  unfolding normalized
  normalized-rebuilt =
      let none_left =
        remaining_singles_none order (collect_singles [] seqs) (collect_ranges seqs) fair
          (collect_ranges-IsRange seqs valid)
          (collect_singles-IsCoveredSingle order seqs fair valid) in
      rw (none_left, kept_singles-nil, order-nil order fair, append-nil)
        (sort_sequences-rebuilt 0 (merged order seqs) merged-IsSeparatedFrom.0
          merged-IsSeparatedFrom.1)

  pub normalized-valid :
      All IsValidSequence (normalized order seqs)
      × (map Order.normalize (normalized order seqs) ≡ normalized order seqs)
  normalized-valid =
      rw normalized-rebuilt (valid_rebuilt_each (merged order seqs) merged-IsSeparatedFrom.1)

-- The normalized set names the same numbers below 2 ^ 32 - 1 as the set: if all numbers of the set
-- are nonzero, `*` stands for 2 ^ 32 - 1, and the iteration over the `HashSet` visits its members
-- and nothing else, in whatever order.
pub normalize-Named :
    (order : List ℕ → List ℕ) (set : SequenceSet) (n : ℕ)
    → IsIteration order
    → All IsValidSequence (sequences set)
    → n < u32_max
    → Named u32_max n (sequences (normalize order set)) ↔ Named u32_max n (sequences set)
unfolding normalize
normalize-Named order set n fair valid small =
    let seqs = sequences set in
    let ranges = merged-IsSeparatedFrom order fair seqs valid in
    let after = rebuilt-Named n (merged order seqs) small ranges.1 in
    let before = collect_ranges-Named n seqs small valid in
    let same = covered-merged order fair seqs valid n in
    rw (normalized-rebuilt order fair seqs valid)
      ((λ h. before.0 (sym same ∙ after.1 h)), λ h. after.0 (same ∙ before.1 h))

-- The sequences of a normalized set are in normal form themselves, ascend, and end more than one
-- number in front of the next one, so that no two of them can be merged: if all numbers of the set
-- are nonzero and the iteration over the `HashSet` visits its members and nothing else.
pub normalize-IsGapped :
    (order : List ℕ → List ℕ) (set : SequenceSet)
    → IsIteration order
    → All IsValidSequence (sequences set)
    → IsGapped (sequences (normalize order set))
      × (map Order.normalize (sequences (normalize order set)) ≡ sequences (normalize order set))
unfolding normalize
normalize-IsGapped order set fair valid =
    let seqs = sequences set in
    let ranges = merged-IsSeparatedFrom order fair seqs valid in
    let gaps : IsGapped (normalized order seqs) =
      rw (normalized-rebuilt order fair seqs valid)
        (rebuilt-IsGapped 0 (merged order seqs) ranges.0 ranges.1) in
    (gaps, (normalized-valid order fair seqs valid).1)

pub normalize-IsValidSequence :
    (order : List ℕ → List ℕ) (set : SequenceSet)
    → IsIteration order
    → All IsValidSequence (sequences set)
    → All IsValidSequence (sequences (normalize order set))
      × (map Order.normalize (sequences (normalize order set)) ≡ sequences (normalize order set))
unfolding normalize
normalize-IsValidSequence order set fair valid = normalized-valid order fair (sequences set) valid
