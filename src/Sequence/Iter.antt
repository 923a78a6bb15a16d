-- ===== src/Sequence/Iter.antt =====
-- The iterators of imap-types/src/sequence.rs: `iter` and `iter_naive` of a sequence set, and what
-- they are built of.
pub mod Ranges
pub mod Yield
pub mod Elements
pub mod Ascending
use imap_codec.Prelude.{
  ℕ, zero, suc, ◌+◌, ◌-◌, Bool, true, false, ◌&&◌, ◌||◌, Option, none, some, List, [], ◌∷◌, map,
  ltb, leb, ◌==◌, if◌then◌else◌, min, max,
}
use imap_codec.Sequence.Types.{
  u32_max, SeqOrUid, Sequence, SequenceSet, single, range, sequences, expand,
}

abbrev pub Pairs : Type 0
Pairs = List (ℕ × ℕ)

-- The closure of `simplify`.
unfoldable pub simplify_one : ℕ → Bool → Sequence → ℕ × ℕ
simplify_one largest sort (single a) = (expand a largest, expand a largest)
simplify_one largest sort (range a b) =
    let a' = expand a largest in
    let b' = expand b largest in if sort then if leb a' b' then (a', b') else (b', a') else (a', b')

unfoldable pub simplify : SequenceSet → ℕ → Bool → Pairs
simplify set largest sort = map (simplify_one largest sort) (sequences set)

-- `Vec<(u32, u32)>::sort`: pairs are ordered by their first number, then by their second.
unfoldable pub insert_pair : ℕ × ℕ → Pairs → Pairs
insert_pair p [] = p ∷ []
insert_pair p (q ∷ rest) =
    if ltb p.0 q.0 || (p.0 == q.0 && leb p.1 q.1) then p ∷ q ∷ rest else q ∷ insert_pair p rest

unfoldable pub sort_pairs : Pairs → Pairs
sort_pairs [] = []
sort_pairs (p ∷ rest) = insert_pair p (sort_pairs rest)

-- `u32::saturating_add(1)`
abbrev pub saturating_suc : ℕ → ℕ
saturating_suc n = min (suc n) u32_max

-- The loop of `cleanup`, with the back of `stack` as its first argument; what lies below it is not
-- touched any more.
unfoldable pub merge_pairs : ℕ × ℕ → Pairs → Pairs
merge_pairs last [] = last ∷ []
merge_pairs last (p ∷ remaining) =
    let merged = merge_pairs (last.0, max last.1 p.1) remaining in
    let pushed = last ∷ merge_pairs p remaining in
    if leb last.0 p.0 && leb p.0 (saturating_suc last.1) then merged else pushed

-- `remaining.pop_front().unwrap()` of the sorted pairs: `none` is its panic on an empty list.
unfoldable pub merge_sorted : Pairs → Option Pairs
merge_sorted [] = none
merge_sorted (p ∷ remaining) = some (merge_pairs p remaining)

unfoldable pub cleanup : Pairs → Option Pairs
cleanup remaining = merge_sorted (sort_pairs remaining)

-- `RangeInclusive<u32>` of the standard library, from both ends.
pub record RangeInclusive : Type 0 where
  pub start : ℕ
  pub end : ℕ
  pub exhausted : Bool

abbrev range_is_empty : RangeInclusive → Bool
range_is_empty r = r.exhausted || ltb r.end r.start

unfoldable pub range_next : RangeInclusive → Option ℕ × RangeInclusive
range_next r =
    if range_is_empty r
    then (none, r)
    else if ltb r.start r.end
    then (some r.start, record r { start = r.start + 1 })
    else (some r.start, record r { exhausted = true })

unfoldable pub range_next_back : RangeInclusive → Option ℕ × RangeInclusive
range_next_back r =
    if range_is_empty r
    then (none, r)
    else if ltb r.start r.end
    then (some r.end, record r { end = r.end - 1 })
    else (some r.end, record r { exhausted = true })

pub data Sorting : Type 0 where
  ascending : RangeInclusive → Sorting
  descending : RangeInclusive → Sorting

-- `Iterator::next` of `Sorting`.
unfoldable pub sorting_next : Sorting → Option ℕ × Sorting
unfolding range_next range_next_back
sorting_next (ascending iter) = let (n, iter') = range_next iter in (n, ascending iter')
sorting_next (descending iter) = let (n, iter') = range_next_back iter in (n, descending iter')

pub record SequenceSetIter : Type 0 where
  pub ranges : Pairs
  pub active_range : Option Sorting

-- The active range that a pair gives rise to.
unfoldable pub activate : ℕ × ℕ → Sorting
activate (a, b) =
    if leb a b
    then ascending (record { start = a; end = b; exhausted = false })
    else descending (record { start = b; end = a; exhausted = false })

-- The loop of `SequenceSetIter::next` from a state without an active range on.
unfoldable pub pop_range : Pairs → Option ℕ × SequenceSetIter
pop_range [] = (none, record { ranges = []; active_range = none })
pop_range (p ∷ rest) =
    let (next, s) = sorting_next (activate p) in
    elim next [
      | some n ↦ (some n, record { ranges = rest; active_range = some s })
      | none ↦ pop_range rest
    ]

-- `SequenceSetIter::next`. A number is returned as it is where the source unwraps it as a
-- `NonZeroU32`: every number of a range that starts at a `NonZeroU32` is one.
unfoldable pub next : SequenceSetIter → Option ℕ × SequenceSetIter
next iter = elim iter.active_range [
  | none ↦ pop_range iter.ranges
  | some active ↦
      let (n, s) = sorting_next active in
      elim n [
        | some n' ↦ (some n', record iter { active_range = some s })
        | none ↦ pop_range iter.ranges
      ]
]

-- `Iterator::collect`: `none` means that the fuel ran out.
unfoldable pub collect : ℕ → SequenceSetIter → Option (List ℕ)
collect zero iter = none
collect (suc fuel) iter =
    let (n, iter') = next iter in
    elim n [
      | none ↦ some []
      | some n' ↦ elim (collect fuel iter') [ none ↦ none | some more ↦ some (n' ∷ more) ]
    ]

abbrev pub over : Pairs → SequenceSetIter
over ranges = record { ranges = ranges; active_range = none }

unfoldable pub iter : SequenceSet → ℕ → Option SequenceSetIter
iter set largest = elim (cleanup (simplify set largest true)) [
  | none ↦ none
  | some ranges ↦ some (over ranges)
]

unfoldable pub iter_naive : SequenceSet → ℕ → SequenceSetIter
iter_naive set largest = over (simplify set largest false)
