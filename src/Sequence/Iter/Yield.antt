-- ===== src/Sequence/Iter/Yield.antt =====
-- What the iterators of imap-types/src/sequence.rs yield: the numbers of one range after the other.
use imap_codec.Prelude.{
  ℕ, zero, suc, ◌+◌, ◌-◌, ◌<◌, ◌≡◌, ◌∙◌, refl, sym, ap, Bool, true, false, Option, none, some, List,
  [], ◌∷◌, ◌++◌, length, map, leb, Bool-cases, inl, inr, if◌then◌else◌, arith, subst,
}
use imap_codec.Sequence.Types.{Sequence, SequenceSet, single, range, sequences, expand}
use imap_codec.Sequence.Iter.{
  Pairs, simplify, simplify_one, RangeInclusive, Sorting, ascending, descending, sorting_next,
  SequenceSetIter, activate, pop_range, next, collect, over, iter_naive,
}

-- `k` numbers upwards from `a`, and downwards from `b`.
abbrev pub up : ℕ → ℕ → List ℕ
up zero a = []
up (suc k) a = a ∷ up k (a + 1)

abbrev pub down : ℕ → ℕ → List ℕ
down zero b = []
down (suc k) b = b ∷ down k (b - 1)

-- All numbers from the first of a pair to the second, in that direction.
unfoldable pub numbers : ℕ × ℕ → List ℕ
numbers (a, b) = if leb a b then up (suc (b - a)) a else down (suc (a - b)) a

abbrev pub all_numbers : Pairs → List ℕ
all_numbers [] = []
all_numbers (p ∷ ranges) = numbers p ++ all_numbers ranges

-- The iterator yields these numbers and ends.
data Yields : Sorting → List ℕ → Type 0 where
  stop : {s : Sorting} → (sorting_next s).0 ≡ none → Yields s []
  give :
      {s : Sorting} {n : ℕ} {l : List ℕ}
      → (sorting_next s).0 ≡ some n
      → Yields (sorting_next s).1 l
      → Yields s (n ∷ l)

give_at :
    {s s' : Sorting} {n : ℕ} {l : List ℕ}
    → sorting_next s ≡ (some n, s')
    → Yields s' l
    → Yields s (n ∷ l)
give_at {l = l} e y =
    give (ap (λ (r : Option ℕ × Sorting). r.0) e)
      (subst (λ (r : Option ℕ × Sorting). Yields r.1 l) (sym e) y)

abbrev range_of : ℕ → ℕ → Bool → RangeInclusive
range_of a b exhausted = record { start = a; end = b; exhausted = exhausted }

up_step :
    (a b : ℕ)
    → a < b
    → sorting_next (ascending (range_of a b false)) ≡ (some a, ascending (range_of (a + 1) b false))
unfolding sorting_next
up_step a b h = ground arith

up_last :
    (a b : ℕ)
    → b ≡ a
    → sorting_next (ascending (range_of a b false)) ≡ (some a, ascending (range_of a b true))
unfolding sorting_next
up_last a b h = ground arith

down_step :
    (a b : ℕ)
    → a < b
    → sorting_next (descending (range_of a b false))
      ≡ (some b, descending (range_of a (b - 1) false))
unfolding sorting_next
down_step a b h = ground arith

down_last :
    (a b : ℕ)
    → b ≡ a
    → sorting_next (descending (range_of a b false)) ≡ (some b, descending (range_of a b true))
unfolding sorting_next
down_last a b h = ground arith

up-Yields : (k a b : ℕ) → b ≡ a + k → Yields (ascending (range_of a b false)) (up (suc k) a)
up-Yields zero a b h =
    give_at (up_last a b (omega arith))
      (stop {s = ascending (range_of a b true)} (unfold sorting_next in refl))
up-Yields (suc k) a b h = give_at (up_step a b (omega arith)) (up-Yields k (a + 1) b (omega arith))

down-Yields : (k a b : ℕ) → b ≡ a + k → Yields (descending (range_of a b false)) (down (suc k) b)
down-Yields zero a b h =
    give_at (down_last a b (omega arith))
      (stop {s = descending (range_of a b true)} (unfold sorting_next in refl))
down-Yields (suc k) a b h =
    give_at (down_step a b (omega arith)) (down-Yields k a (b - 1) (omega arith))

activate-Yields : (p : ℕ × ℕ) → Yields (activate p) (numbers p)
unfolding activate numbers
activate-Yields (a, b) = elim (Bool-cases (leb a b)) [
  | inl le ↦ rw le (up-Yields (b - a) a b (ground arith))
  | inr gt ↦ rw gt (down-Yields (a - b) b a (ground arith))
]

-- With fuel above the number of items, collecting gives exactly them.
abbrev pub Collects : SequenceSetIter → List ℕ → Type 0
Collects i out = (fuel : ℕ) → length out < fuel → collect fuel i ≡ some out

collect-next :
    (i j : SequenceSetIter) → next i ≡ next j → (fuel : ℕ) → collect fuel i ≡ collect fuel j
unfolding collect
collect-next i j e zero = refl
collect-next i j e (suc fuel) =
    ap
      (λ (r : Option ℕ × SequenceSetIter). elim (r.0) as (λ _. Option (List ℕ)) [
        | none ↦ some []
        | some n ↦ elim (collect fuel r.1) as (λ _. Option (List ℕ)) [
          | none ↦ none
          | some more ↦ some (n ∷ more)
        ]
      ])
      e

collect_given :
    (i j : SequenceSetIter) (fuel : ℕ) {n : ℕ}
    → next i ≡ (some n, j)
    → collect (suc fuel) i ≡ elim (collect fuel j) as (λ _. Option (List ℕ)) [
      | none ↦ none
      | some more ↦ some (n ∷ more)
    ]
unfolding collect
collect_given i j fuel e =
    let item = ap (λ (r : Option ℕ × SequenceSetIter). r.0) e in
    let state = ap (λ (r : Option ℕ × SequenceSetIter). r.1) e in rw (item, state, collect)

module _ (rest : Pairs) where
  abbrev active : Sorting → SequenceSetIter
  active s = record { ranges = rest; active_range = some s }

  next_done : (s : Sorting) → (sorting_next s).0 ≡ none → next (active s) ≡ next (over rest)
  unfolding next
  next_done s e = rw (e, next)

  next_given :
      (s : Sorting) {n : ℕ}
      → (sorting_next s).0 ≡ some n
      → next (active s) ≡ (some n, active (sorting_next s).1)
  unfolding next
  next_given s e = rw (e, next)

  active-Collects :
      {s : Sorting} {l : List ℕ} (m : List ℕ)
      → Yields s l
      → Collects (over rest) m
      → Collects (active s) (l ++ m)
  active-Collects {s} m (stop e) c fuel h =
      collect-next (active s) (over rest) (next_done s e) fuel ∙ c fuel h
  active-Collects m (give e y) c zero h = absurd (omega arith)
  active-Collects {s} m (give {n = n} e y) c (suc fuel) h =
      collect_given (active s) (active (sorting_next s).1) fuel (next_given s e)
      ∙ rw (active-Collects m y c fuel (omega arith))

next-activate :
    (p : ℕ × ℕ) (rest : Pairs)
    → next (over (p ∷ rest)) ≡ next (record { ranges = rest; active_range = some (activate p) })
unfolding next pop_range
next-activate p rest = refl

pub over-Collects : (ranges : Pairs) → Collects (over ranges) (all_numbers ranges)
over-Collects [] zero h = absurd (omega arith)
over-Collects [] (suc fuel) h = unfold collect next pop_range in refl
over-Collects (p ∷ rest) fuel h =
    collect-next (over (p ∷ rest)) (record { ranges = rest; active_range = some (activate p) })
      (next-activate p rest) fuel
    ∙ active-Collects rest (all_numbers rest) (activate-Yields p) (over-Collects rest) fuel h

-- The numbers that the sequences spell, one sequence after the other, each in the direction in
-- which it is written.
abbrev pub spelled : ℕ → List Sequence → List ℕ
spelled largest [] = []
spelled largest (single a ∷ seqs) = expand a largest ∷ spelled largest seqs
spelled largest (range a b ∷ seqs) =
    numbers (expand a largest, expand b largest) ++ spelled largest seqs

numbers_single : (a : ℕ) → numbers (a, a) ≡ a ∷ []
unfolding numbers
numbers_single a = let zero_apart : a - a ≡ 0 = omega arith in ground (arith, zero_apart)

simplify-spelled :
    (seqs : List Sequence) (largest : ℕ)
    → all_numbers (map (simplify_one largest false) seqs) ≡ spelled largest seqs
unfolding simplify_one
simplify-spelled [] largest = refl
simplify-spelled (single a ∷ seqs) largest =
    rw (numbers_single (expand a largest), simplify-spelled seqs largest)
simplify-spelled (range a b ∷ seqs) largest = rw (simplify-spelled seqs largest)

-- With more fuel than numbers, `iter_naive` yields the numbers of one sequence after the other, in
-- the direction in which each is written, with `*` as the largest number, and then ends.
pub collect-iter_naive :
    (set : SequenceSet) (largest fuel : ℕ)
    → length (spelled largest (sequences set)) < fuel
    → collect fuel (iter_naive set largest) ≡ some (spelled largest (sequences set))
unfolding iter_naive simplify
collect-iter_naive set largest fuel =
    rw (← simplify-spelled (sequences set) largest)
      (over-Collects (map (simplify_one largest false) (sequences set)) fuel)
