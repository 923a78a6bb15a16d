-- ===== src/Sequence/Iter/Ascending.antt =====
-- `SequenceSet::iter` of imap-types/src/sequence.rs: which numbers it yields, and in which order.
use imap_codec.Prelude.{
  ℕ, ◌+◌, ◌≤◌, ◌≡◌, ◌≢◌, ◌↔◌, ◌⊎◌, inl, inr, refl, true, some, List, [], ◌∷◌, map, length, leb,
  leb→le, Bool-cases, arith, All,
}
use imap_codec.Sequence.Types.{
  Sequence, SequenceSet, SeqOrUid, value, asterisk, single, range, sequences, expand, IsNonZero,
  IsValidSeq, IsValidSequence, u32_max,
}
use imap_codec.Sequence.Iter.{
  Pairs, simplify, simplify_one, sort_pairs, insert_pair, merge_pairs, merge_sorted, cleanup,
  SequenceSetIter, collect, over, iter,
}
use imap_codec.Sequence.Iter.Ranges.{
  InRange, Covered, IsRange, Separated, sort_pairs-Covered, sort_pairs-SortedFrom, sort_pairs-All,
  merge_pairs-Covered, merge_pairs-Separated, Separated-weaken,
}
use imap_codec.Sequence.Iter.Yield.{all_numbers, over-Collects}
use imap_codec.Sequence.Iter.Elements.{Ascending, Elem, Elem-all_numbers, all_numbers-Ascending}

-- The sequence names the number, with `*` as the largest number; the two ends of a range may
-- stand in either order.
abbrev pub Names : ℕ → ℕ → Sequence → Type 0
Names largest n (single a) = n ≡ expand a largest
Names largest n (range a b) =
    ((expand a largest ≤ n) × (n ≤ expand b largest))
    ⊎ ((expand b largest ≤ n) × (n ≤ expand a largest))

abbrev pub Named : ℕ → ℕ → List Sequence → Type 0
Named largest n [] = ⊥
Named largest n (s ∷ seqs) = Names largest n s ⊎ Named largest n seqs

simplify_one-Names :
    (largest n : ℕ) (s : Sequence) → InRange n (simplify_one largest true s) ↔ Names largest n s
unfolding simplify_one
simplify_one-Names largest n (single a) = (λ h. omega arith, λ h. (omega arith, omega arith))
simplify_one-Names largest n (range a b) =
    elim (Bool-cases (leb (expand a largest) (expand b largest))) [
      | inl le ↦ rw le (λ h. inl h, λ h. ground arith)
      | inr gt ↦ rw gt (λ h. inr h, λ h. ground arith)
    ]

simplify-Named :
    (largest n : ℕ) (seqs : List Sequence)
    → Covered n (map (simplify_one largest true) seqs) ↔ Named largest n seqs
simplify-Named largest n [] = (λ c. c, λ c. c)
simplify-Named largest n (s ∷ seqs) =
    let here = simplify_one-Names largest n s in
    let rest = simplify-Named largest n seqs in
    (
      elim [ inl c ↦ inl (here.0 c) | inr c ↦ inr (rest.0 c) ],
      elim [ inl c ↦ inl (here.1 c) | inr c ↦ inr (rest.1 c) ],
    )

expand-bound :
    (a : SeqOrUid) (largest : ℕ) → largest ≤ u32_max → IsValidSeq a → expand a largest ≤ u32_max
unfolding expand
expand-bound (value n) largest h v = v.1
expand-bound asterisk largest h v = h

simplify_one-IsRange :
    (largest : ℕ) (s : Sequence)
    → IsNonZero largest
    → IsValidSequence s
    → IsRange (simplify_one largest true s)
unfolding simplify_one
simplify_one-IsRange largest (single a) h v = (omega arith, expand-bound a largest h.1 v)
simplify_one-IsRange largest (range a b) h (va, vb) =
    let a_fits = expand-bound a largest h.1 va in
    let b_fits = expand-bound b largest h.1 vb in
    elim (Bool-cases (leb (expand a largest) (expand b largest))) [
      | inl le ↦ rw le (leb→le _ _ le, b_fits)
      | inr gt ↦ rw gt (ground arith, a_fits)
    ]

simplify-IsRange :
    (largest : ℕ) (seqs : List Sequence)
    → IsNonZero largest
    → All IsValidSequence seqs
    → All IsRange (map (simplify_one largest true) seqs)
simplify-IsRange largest [] h v = tt
simplify-IsRange largest (s ∷ seqs) h (v, vs) =
    (simplify_one-IsRange largest s h v, simplify-IsRange largest seqs h vs)

map-nil {ℓ κ} : {A : Type ℓ} {B : Type κ} (f : A → B) (xs : List A) → map f xs ≡ [] → xs ≡ []
map-nil f [] e = refl
map-nil f (x ∷ xs) e = cc

insert_pair-ne-nil : (p : ℕ × ℕ) (pairs : Pairs) → insert_pair p pairs ≢ []
unfolding insert_pair
insert_pair-ne-nil p [] = cc
insert_pair-ne-nil p (q ∷ pairs) = ground arith

sort_pairs-nil : (pairs : Pairs) → sort_pairs pairs ≡ [] → pairs ≡ []
unfolding sort_pairs
sort_pairs-nil [] e = refl
sort_pairs-nil (p ∷ pairs) e = absurd (insert_pair-ne-nil p (sort_pairs pairs) e)

-- What `cleanup` makes of ranges, by the sorted ones.
merged :
    (pairs sorted : Pairs)
    → sort_pairs pairs ≡ sorted
    → pairs ≢ []
    → All IsRange pairs
    → (out : Pairs) × (merge_sorted (sort_pairs pairs) ≡ some out)
      × Separated 0 out
      × ((n : ℕ) → Covered n out ↔ Covered n pairs)
unfolding merge_sorted
merged pairs [] e h v = absurd (h (sort_pairs-nil pairs e))
merged pairs (p ∷ rest) e h v =
    let (p_range, rest_ranges) = rw e at (sort_pairs-All pairs v) in
    let (low, sorted) = rw e at (sort_pairs-SortedFrom pairs) in
    (
      merge_pairs p rest,
      rw e,
      Separated-weaken p.0 0 (merge_pairs p rest) (omega arith)
          (merge_pairs-Separated p rest p_range rest_ranges sorted),
      λ n.
          let cover = merge_pairs-Covered n p rest in
          let sort = rw e at (sort_pairs-Covered n pairs) in
          (λ c. sort.0 (cover.0 c), λ c. cover.1 (sort.1 c)),
    )

-- For a valid sequence set that is not empty and a largest number that is a `NonZeroU32`, `iter`
-- does not panic, and its iterator yields finitely many numbers and ends: in strictly ascending
-- order exactly the numbers that a sequence of the set names, whatever the order of the sequences
-- and of the ends of a range, and however often.
pub collect-iter :
    (set : SequenceSet) (largest : ℕ)
    → sequences set ≢ []
    → IsNonZero largest
    → All IsValidSequence (sequences set)
    → (it : SequenceSetIter) × (out : List ℕ) × (iter set largest ≡ some it)
      × (collect (length out + 1) it ≡ some out)
      × Ascending 0 out
      × ((n : ℕ) → Elem n out ↔ Named largest n (sequences set))
unfolding iter cleanup simplify
collect-iter set largest h large v =
    let pairs = map (simplify_one largest true) (sequences set) in
    let result =
      merged pairs (sort_pairs pairs) refl
        (λ e. h (map-nil (simplify_one largest true) (sequences set) e))
        (simplify-IsRange largest (sequences set) large v) in
    let named = λ (n : ℕ). simplify-Named largest n (sequences set) in
    (
      over result.0,
      all_numbers result.0,
      rw (result.1, iter),
      over-Collects result.0 (length (all_numbers result.0) + 1) (omega arith),
      all_numbers-Ascending 0 result.0 result.2,
      λ n.
          let members = Elem-all_numbers n 0 result.0 result.2 in
          let covered = result.3 n in
          (λ e. (named n).0 (covered.0 (members.0 e)), λ e. members.1 (covered.1 ((named n).1 e))),
    )
