-- ===== src/Sequence/Normalize/Canonical.antt =====
-- `SequenceSet::normalize` (imap-types/src/sequence.rs) and the order in which its `HashSet` is
-- walked over.
use imap_codec.Prelude.{
  ℕ, ◌<◌, ◌≤◌, ◌≡◌, ◌≢◌, ◌∙◌, refl, sym, ap, Bool, true, false, ◌||◌, List, [], ◌∷◌, map, any, All,
  ◌==◌, Bool-cases, inl, inr, arith, ltb, leb, max,
}
use imap_codec.Sequence.Types.{u32_max, Sequence, SequenceSet, sequences, IsValidSequence}
use imap_codec.Sequence.Iter.{Pairs}
use imap_codec.Sequence.Order
use imap_codec.Sequence.Normalize.{
  visited, visited_by, insert_range, sort_ranges, merge_from, merge_sorted, merge_ranges, merged,
  rebuilt, collect_singles, collect_ranges, normalize, normalized, to_range,
}
use imap_codec.Sequence.Normalize.Covered.{IsRange, covered, ends-visited}
use imap_codec.Sequence.Normalize.Singles.{IsIteration, visited_by-IsRange}
use imap_codec.Sequence.Normalize.Collected.{
  collect_ranges-IsRange, collect_singles-IsCoveredSingle,
}
use imap_codec.Sequence.Normalize.Merged.{IsSeparatedFrom, sort_ranges-IsRange}
use imap_codec.Sequence.Normalize.Named.{merged-IsSeparatedFrom, covered-merged, normalized-rebuilt}

-- Some range ends at the greatest number.
abbrev reaches : Pairs → Bool
reaches ranges = any (λ r. r.1 == u32_max) ranges

reaches-visited_by :
    (members : List ℕ) (ranges : Pairs) → reaches (visited_by members ranges) ≡ reaches ranges
unfolding visited_by
reaches-visited_by [] ranges = refl
reaches-visited_by (n ∷ members) ranges =
    reaches-visited_by members (visited n ranges) ∙ ends-visited n u32_max ranges

reaches-insert_range :
    (r : ℕ × ℕ) (ranges : Pairs) → reaches (insert_range r ranges) ≡ reaches (r ∷ ranges)
unfolding insert_range
reaches-insert_range r [] = refl
reaches-insert_range r (q ∷ ranges) = ground (arith, reaches-insert_range r ranges)

reaches-sort_ranges : (ranges : Pairs) → reaches (sort_ranges ranges) ≡ reaches ranges
unfolding sort_ranges
reaches-sort_ranges [] = refl
reaches-sort_ranges (r ∷ ranges) =
    reaches-insert_range r (sort_ranges ranges)
    ∙ ap (λ (b : Bool). r.1 == u32_max || b) (reaches-sort_ranges ranges)

reaches-merge_from :
    (last : ℕ × ℕ) (ranges : Pairs)
    → last.1 ≤ u32_max
    → All IsRange ranges
    → reaches (merge_from last ranges) ≡ reaches (last ∷ ranges)
unfolding merge_from
reaches-merge_from last [] le h = refl
reaches-merge_from (a, b) ((c, d) ∷ ranges) le (hr, h) = elim (Bool-cases (leb c b)) [
  | inl e ↦ rw (e, reaches-merge_from (a, max b d) ranges (omega arith) h) (ground arith)
  | inr e ↦ rw (e, reaches-merge_from (c, d) ranges (omega arith) h)
]

reaches-merge_sorted :
    (ranges : Pairs) → All IsRange ranges → reaches (merge_sorted ranges) ≡ reaches ranges
unfolding merge_sorted
reaches-merge_sorted [] h = refl
reaches-merge_sorted (r ∷ ranges) (hr, h) = reaches-merge_from r ranges (omega arith) h

reaches-merged :
    (order : List ℕ → List ℕ) (seqs : List Sequence)
    → IsIteration order
    → All IsValidSequence seqs
    → reaches (merged order seqs) ≡ reaches (collect_ranges seqs)
unfolding merged merge_ranges
reaches-merged order seqs fair valid =
    let members = order (collect_singles [] seqs) in
    let ranges = visited_by members (collect_ranges seqs) in
    let valid_ranges =
      visited_by-IsRange members (collect_ranges seqs) (collect_ranges-IsRange seqs valid)
        (collect_singles-IsCoveredSingle order seqs fair valid) in
    reaches-merge_sorted (sort_ranges ranges) (sort_ranges-IsRange ranges valid_ranges)
    ∙ reaches-sort_ranges ranges
    ∙ reaches-visited_by members (collect_ranges seqs)

-- What stands in front of separated ranges is not covered.
covered-below :
    (n end : ℕ) (ranges : Pairs) → n ≤ end → IsSeparatedFrom end ranges → covered n ranges ≡ false
covered-below n end [] le h = refl
covered-below n end ((a, b) ∷ ranges) le (lt, ordered, h) =
    ground (arith, covered-below n b ranges (omega arith) h)

covered-start :
    (r : ℕ × ℕ) (ranges : Pairs) → IsRange r → r.0 < u32_max → covered r.0 (r ∷ ranges) ≡ true
covered-start (a, b) ranges h lt = ground arith

nothing_behind :
    (end : ℕ) (ranges : Pairs)
    → u32_max ≤ end
    → IsSeparatedFrom end ranges
    → All IsRange ranges
    → ranges ≡ []
nothing_behind end [] le h hs = refl
nothing_behind end (r ∷ ranges) le (lt, ordered, h) (hr, hs) = absurd (omega arith)

-- No range and a range: the range holds its start or ends at the greatest number.
module _ (r : ℕ × ℕ) (ranges : Pairs) (hr : IsRange r) where
  not_nothing : ((n : ℕ) → covered n (r ∷ ranges) ≡ false) → reaches (r ∷ ranges) ≡ false → ⊥
  not_nothing c e = elim (Bool-cases (ltb r.0 u32_max)) [
    | inl lt ↦ ground (arith, covered-start r ranges hr (ground arith), c (r.0))
    | inr ge ↦ let end : r.1 ≡ u32_max = ground arith in ground arith
  ]

module _ (end : ℕ) (a b c d : ℕ) (xs ys : Pairs) (hx : IsSeparatedFrom end ((a, b) ∷ xs))
    (hy : IsSeparatedFrom end ((c, d) ∷ ys)) (rx : IsRange (a, b)) (ry : IsRange (c, d))
    (same : (n : ℕ) → covered n ((a, b) ∷ xs) ≡ covered n ((c, d) ∷ ys)) where
  start-le : c ≤ a
  start-le = elim (Bool-cases (ltb a c)) [
    | inl lt ↦ absurd (
        ground (
          arith,
          covered-start (a, b) xs rx (ground arith),
          same a,
          covered-below a d ys (ground arith) hy.2,
        ))
    | inr ge ↦ ground arith
  ]

  end-le : a ≡ c → d ≤ b
  end-le e = elim (Bool-cases (ltb b d)) [
    | inl lt ↦ absurd (ground (arith, same b, covered-below b b xs (omega arith) hx.2))
    | inr ge ↦ ground arith
  ]

-- Separated ranges are determined by the numbers in them, and by their reaching the greatest one.
separated_unique :
    (end : ℕ) (xs ys : Pairs)
    → IsSeparatedFrom end xs
    → IsSeparatedFrom end ys
    → All IsRange xs
    → All IsRange ys
    → ((n : ℕ) → covered n xs ≡ covered n ys)
    → reaches xs ≡ reaches ys
    → xs ≡ ys
separated_unique end [] [] hx hy rx ry same ends = refl
separated_unique end [] (q ∷ ys) hx hy rx (rq, ry) same ends =
    absurd (not_nothing q ys rq (λ n. sym (same n)) (sym ends))
separated_unique end (r ∷ xs) [] hx hy (rr, rx) ry same ends =
    absurd (not_nothing r xs rr same ends)
separated_unique end ((a, b) ∷ xs) ((c, d) ∷ ys) hx hy (rr, rx) (rq, ry) same ends =
    let back = λ (n : ℕ). sym (same n) in
    let starts : a ≡ c = omega (
      arith,
      start-le end a b c d xs ys hx hy rr rq same,
      start-le end c d a b ys xs hy hx rq rr back,
    ) in
    let ends' : b ≡ d = omega (
      arith,
      end-le end a b c d xs ys hx hy rr rq same starts,
      end-le end c d a b ys xs hy hx rq rr back (sym starts),
    ) in
    let hy' : IsSeparatedFrom b ys = rw ends' hy.2 in
    let tails : (n : ℕ) → covered n xs ≡ covered n ys = λ n. elim (Bool-cases (leb n b)) [
      | inl le ↦
          covered-below n b xs (ground arith) hx.2 ∙ sym (covered-below n b ys (ground arith) hy')
      | inr gt ↦ ground (arith, same n)
    ] in
    let reach : reaches xs ≡ reaches ys = elim (Bool-cases (b == u32_max)) [
      | inl e ↦ ap reaches (
          nothing_behind b xs (ground arith) hx.2 rx
          ∙ sym (nothing_behind b ys (ground arith) hy' ry))
      | inr e ↦ ground arith
    ] in
    rw (starts, ends')
      (ap (λ (l : Pairs). (c, d) ∷ l) (separated_unique b xs ys hx.2 hy' rx ry tails reach))

nothing_rebuilt : (ranges : Pairs) → map rebuilt ranges ≡ [] → ranges ≡ []
nothing_rebuilt [] e = refl
nothing_rebuilt (r ∷ ranges) e = cc

-- A set that is not empty stays so.
pub normalize-nonempty :
    (order : List ℕ → List ℕ) (set : SequenceSet)
    → IsIteration order
    → All IsValidSequence (sequences set)
    → sequences set ≢ []
    → sequences (normalize order set) ≢ []
unfolding normalize collect_ranges
normalize-nonempty order set fair valid h e = by_ranges (sequences set) valid h e
  where
    by_ranges :
        (seqs : List Sequence)
        → All IsValidSequence seqs
        → seqs ≢ []
        → normalized order seqs ≡ []
        → ⊥
    by_ranges [] valid h e = h refl
    by_ranges (s ∷ seqs) valid h e =
        let nothing : merged order (s ∷ seqs) ≡ [] =
          nothing_rebuilt (merged order (s ∷ seqs))
            (sym (normalized-rebuilt order fair (s ∷ seqs) valid) ∙ e) in
        let r = to_range (Order.normalize s) in
        not_nothing r (collect_ranges seqs) (collect_ranges-IsRange (s ∷ seqs) valid).0
          (λ n. sym (covered-merged order fair (s ∷ seqs) valid n) ∙ ap (covered n) nothing)
          (sym (reaches-merged order (s ∷ seqs) fair valid) ∙ ap reaches nothing)

-- The order in which the `HashSet` is walked over does not matter: if all numbers of the set are
-- nonzero, two iterations that visit the members of the `HashSet` and nothing else normalize it to
-- the same set.
pub normalize_unordered :
    (order order' : List ℕ → List ℕ) (set : SequenceSet)
    → IsIteration order
    → IsIteration order'
    → All IsValidSequence (sequences set)
    → normalize order set ≡ normalize order' set
unfolding normalize
normalize_unordered order order' set fair fair' valid =
    let seqs = sequences set in
    let one = merged-IsSeparatedFrom order fair seqs valid in
    let two = merged-IsSeparatedFrom order' fair' seqs valid in
    let ranges =
      separated_unique 0 (merged order seqs) (merged order' seqs) one.0 two.0 one.1 two.1
        (λ n.
          covered-merged order fair seqs valid n ∙ sym (covered-merged order' fair' seqs valid n))
        (reaches-merged order seqs fair valid ∙ sym (reaches-merged order' seqs fair' valid)) in
    ap (λ (l : List Sequence). record { inner = record { inner = l } })
      (normalized-rebuilt order fair seqs valid
        ∙ ap (map rebuilt) ranges
        ∙ sym (normalized-rebuilt order' fair' seqs valid))
