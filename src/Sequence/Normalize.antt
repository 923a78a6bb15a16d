-- ===== src/Sequence/Normalize.antt =====
-- `SequenceSet::normalize` and `merge_ranges` (imap-types/src/sequence.rs). A `HashSet` is a list
-- of its members, and the order in which it is walked over is an argument.
pub mod Covered
pub mod Singles
pub mod Collected
pub mod Merged
pub mod Rebuilt
pub mod Named
pub mod Canonical
mod Tests
use imap_codec.Prelude.{
  ℕ, ◌-◌, Bool, true, false, ◌&&◌, ◌||◌, not, List, [], ◌∷◌, ◌++◌, map, any, ltb, leb, ◌==◌,
  if◌then◌else◌, max,
}
use imap_codec.Sequence.Types.{
  u32_max, SeqOrUid, Sequence, SequenceSet, single, range, asterisk, sequences, to_non_zero_u32,
  from_non_zero,
}
use imap_codec.Sequence.Iter.{Pairs, saturating_suc}
use imap_codec.Sequence.Order

-- `HashSet::contains`
abbrev pub contains : ℕ → List ℕ → Bool
contains n set = any (λ m. m == n) set

-- `HashSet::insert`
unfoldable pub insert_single : ℕ → List ℕ → List ℕ
insert_single n set = if contains n set then set else n ∷ set

-- `Vec::retain` and `HashSet::retain`
unfoldable pub retain : (ℕ → Bool) → List ℕ → List ℕ
retain keep [] = []
retain keep (n ∷ set) = let rest = retain keep set in if keep n then n ∷ rest else rest

-- `HashSet::remove`
unfoldable pub remove : ℕ → List ℕ → List ℕ
unfolding retain
remove n set = retain (λ m. not (m == n)) set

-- The half-open range of a sequence whose ends are in order.
unfoldable pub to_range : Sequence → ℕ × ℕ
unfolding to_non_zero_u32
to_range (single id) = (to_non_zero_u32 id, saturating_suc (to_non_zero_u32 id))
to_range (range a b) = (to_non_zero_u32 a, saturating_suc (to_non_zero_u32 b))

-- What the first loop collects: the single numbers and the ranges.
unfoldable pub add_single : Sequence → List ℕ → List ℕ
unfolding insert_single to_non_zero_u32
add_single (single id) set = insert_single (to_non_zero_u32 id) set
add_single (range a b) set = set

unfoldable pub collect_singles : List ℕ → List Sequence → List ℕ
unfolding add_single Order.normalize
collect_singles set [] = set
collect_singles set (s ∷ seqs) = collect_singles (add_single (Order.normalize s) set) seqs

unfoldable pub collect_ranges : List Sequence → Pairs
unfolding to_range Order.normalize
collect_ranges seqs = map (λ s. to_range (Order.normalize s)) seqs

-- `Range::contains`
abbrev pub range_contains : ℕ × ℕ → ℕ → Bool
range_contains r n = leb r.0 n && ltb n r.1

-- The body of the second loop for one number and one range: the range that is left, and if the
-- number is removed from the set.
unfoldable pub visit : ℕ → ℕ × ℕ → (ℕ × ℕ) × Bool
visit n r =
    if n == max r.0 2 - 1
    then ((n, r.1), true)
    else if n == r.1
    then ((r.0, n), true)
    else (r, range_contains r n)

unfoldable pub visited : ℕ → Pairs → Pairs
unfolding visit
visited n ranges = map (λ r. (visit n r).0) ranges

unfoldable pub is_removed : ℕ → Pairs → Bool
unfolding visit
is_removed n ranges = any (λ r. (visit n r).1) ranges

-- The second loop, over the members of the cloned set.
unfoldable pub remaining_singles : List ℕ → List ℕ → Pairs → List ℕ
unfolding remove is_removed visited
remaining_singles [] set ranges = set
remaining_singles (n ∷ members) set ranges =
    remaining_singles members (if is_removed n ranges then remove n set else set) (visited n ranges)

unfoldable pub visited_by : List ℕ → Pairs → Pairs
unfolding visited
visited_by [] ranges = ranges
visited_by (n ∷ members) ranges = visited_by members (visited n ranges)

-- `sort_unstable_by_key` by the start. Ranges with the same start stay in their order; which order
-- they have is not fixed, and they are merged next.
unfoldable pub insert_range : ℕ × ℕ → Pairs → Pairs
insert_range r [] = r ∷ []
insert_range r (q ∷ rest) = if leb r.0 q.0 then r ∷ q ∷ rest else q ∷ insert_range r rest

unfoldable pub sort_ranges : Pairs → Pairs
unfolding insert_range
sort_ranges [] = []
sort_ranges (r ∷ rest) = insert_range r (sort_ranges rest)

-- The loop of `merge_ranges`, with the last merged range as its first argument; the ranges in
-- front of it are not touched any more.
unfoldable pub merge_from : ℕ × ℕ → Pairs → Pairs
merge_from last [] = last ∷ []
merge_from last (r ∷ rest) =
    let merged = merge_from (last.0, max last.1 r.1) rest in
    let pushed = last ∷ merge_from r rest in if leb r.0 last.1 then merged else pushed

unfoldable pub merge_sorted : Pairs → Pairs
unfolding merge_from
merge_sorted [] = []
merge_sorted (r ∷ rest) = merge_from r rest

unfoldable pub merge_ranges : Pairs → Pairs
unfolding sort_ranges merge_sorted
merge_ranges ranges = merge_sorted (sort_ranges ranges)

-- The sequence of a merged range.
unfoldable pub rebuilt : ℕ × ℕ → Sequence
unfolding from_non_zero
rebuilt (a, b) =
    if a == b || saturating_suc a == b
    then single (from_non_zero a)
    else if b == u32_max
    then range (from_non_zero a) asterisk
    else range (from_non_zero a) (from_non_zero (max b 2 - 1))

-- The numbers that no merged range holds.
unfoldable pub kept_singles : Pairs → List ℕ → List ℕ
unfolding retain
kept_singles [] set = set
kept_singles (r ∷ ranges) set = kept_singles ranges (retain (λ n. not (range_contains r n)) set)

unfoldable pub sort_key : Sequence → ℕ
unfolding to_non_zero_u32
sort_key (single a) = to_non_zero_u32 a
sort_key (range a b) = to_non_zero_u32 a

-- `sort_by_key`, which is stable.
unfoldable pub insert_sequence : Sequence → List Sequence → List Sequence
unfolding sort_key
insert_sequence s [] = s ∷ []
insert_sequence s (t ∷ rest) =
    if leb (sort_key s) (sort_key t) then s ∷ t ∷ rest else t ∷ insert_sequence s rest

unfoldable pub sort_sequences : List Sequence → List Sequence
unfolding insert_sequence
sort_sequences [] = []
sort_sequences (s ∷ rest) = insert_sequence s (sort_sequences rest)

-- The ranges behind the second loop, merged.
unfoldable pub merged : (List ℕ → List ℕ) → List Sequence → Pairs
unfolding collect_singles collect_ranges visited_by merge_ranges
merged iteration_order seqs =
    merge_ranges (visited_by (iteration_order (collect_singles [] seqs)) (collect_ranges seqs))

unfoldable pub normalized : (List ℕ → List ℕ) → List Sequence → List Sequence
unfolding collect_singles collect_ranges remaining_singles merged rebuilt kept_singles
    sort_sequences from_non_zero
normalized iteration_order seqs =
    let singles = collect_singles [] seqs in
    let ranges = collect_ranges seqs in
    let left = remaining_singles (iteration_order singles) singles ranges in
    let merged_ranges = merged iteration_order seqs in
    let more = iteration_order (kept_singles merged_ranges left) in
    sort_sequences (map rebuilt merged_ranges ++ map (λ n. single (from_non_zero n)) more)

unfoldable pub normalize : (List ℕ → List ℕ) → SequenceSet → SequenceSet
unfolding normalized
normalize iteration_order set = record {
  inner = record { inner = normalized iteration_order (sequences set) };
}
