-- ===== src/Sequence/Normalize/Singles.antt =====
-- The single numbers that `SequenceSet::normalize` (imap-types/src/sequence.rs) collects in a
-- `HashSet` and removes again.
use imap_codec.Prelude.{
  ℕ, ◌≡◌, ◌∙◌, inl, inr, refl, Bool, true, false, ◌&&◌, not, List, [], ◌∷◌, All, arith, ltb, ◌==◌,
  ==_iff, Bool-cases,
}
use imap_codec.Sequence.Types.{u32_max}
use imap_codec.Sequence.Iter.{Pairs}
use imap_codec.Sequence.Normalize.{
  contains, visited, visited_by, is_removed, remaining_singles, remove, retain, kept_singles,
}
use imap_codec.Sequence.Normalize.Covered.{
  IsRange, covered, IsCoveredSingle, covered-visited, visited-IsRange, is_removed-covered,
  is_removed-ends, ends-visited,
}

-- What holds of every member, holds of all.
pub All-contains {κ} :
    (P : ℕ → Type κ) (set : List ℕ) → ((n : ℕ) → contains n set ≡ true → P n) → All P set
All-contains P [] h = tt
All-contains P (m ∷ set) h = (h m (ground arith), All-contains P set (λ n e. h n (ground arith)))

pub contains-nil : (set : List ℕ) → ((n : ℕ) → contains n set ≡ false) → set ≡ []
contains-nil [] h = refl
contains-nil (m ∷ set) h = ground (arith, h m)

covered_after :
    (n : ℕ) (ranges : Pairs) (set : List ℕ)
    → All IsRange ranges
    → IsCoveredSingle ranges n
    → All (IsCoveredSingle ranges) set
    → All (IsCoveredSingle (visited n ranges)) set
covered_after n ranges [] h c cs = tt
covered_after n ranges (m ∷ set) h (pos, low, high) ((pos', low', high'), cs) = (
  (
    pos',
    λ lt. covered-visited n pos ranges m h low ∙ low' lt,
    λ le. ends-visited n m ranges ∙ high' le,
  ),
  covered_after n ranges set h (pos, low, high) cs,
)

pub visited_by-IsRange :
    (members : List ℕ) (ranges : Pairs)
    → All IsRange ranges
    → All (IsCoveredSingle ranges) members
    → All IsRange (visited_by members ranges)
unfolding visited_by
visited_by-IsRange [] ranges h cs = h
visited_by-IsRange (n ∷ members) ranges h (c, cs) =
    visited_by-IsRange members (visited n ranges) (visited-IsRange n c.0 ranges h)
      (covered_after n ranges members h c cs)

-- The second loop does not change which numbers the ranges hold.
pub covered-visited_by :
    (members : List ℕ) (ranges : Pairs) (m : ℕ)
    → All IsRange ranges
    → All (IsCoveredSingle ranges) members
    → covered m (visited_by members ranges) ≡ covered m ranges
unfolding visited_by
covered-visited_by [] ranges m h cs = refl
covered-visited_by (n ∷ members) ranges m h (c, cs) =
    covered-visited_by members (visited n ranges) m (visited-IsRange n c.0 ranges h)
      (covered_after n ranges members h c cs)
    ∙ covered-visited n c.0 ranges m h c.1

contains-retain :
    (keep : ℕ → Bool) (m : ℕ) (set : List ℕ)
    → contains m (retain keep set) ≡ (contains m set && keep m)
unfolding retain
contains-retain keep m [] = refl
contains-retain keep m (k ∷ set) = elim (Bool-cases (k == m)) [
  | inl e ↦ rw (e, (==_iff k m).0 e) (ground (arith, contains-retain keep m set))
  | inr e ↦ rw e (ground (arith, contains-retain keep m set))
]

is_removed_single : (n : ℕ) (ranges : Pairs) → IsCoveredSingle ranges n → is_removed n ranges ≡ true
is_removed_single n ranges (pos, low, high) = elim (Bool-cases (ltb n u32_max)) [
  | inl lt ↦ is_removed-covered n pos ranges (low (ground arith))
  | inr ge ↦ is_removed-ends n pos ranges (high (ground arith))
]

contains-remaining_singles :
    (members set : List ℕ) (ranges : Pairs) (m : ℕ)
    → All IsRange ranges
    → All (IsCoveredSingle ranges) members
    → contains m (remaining_singles members set ranges)
      ≡ (contains m set && not (contains m members))
unfolding remaining_singles remove
contains-remaining_singles [] set ranges m h cs = ground arith
contains-remaining_singles (n ∷ members) set ranges m h (c, cs) =
    rw (is_removed_single n ranges c) (
      contains-remaining_singles members (remove n set) (visited n ranges) m
        (visited-IsRange n c.0 ranges h) (covered_after n ranges members h c cs)
      ∙ rw (contains-retain (λ k. not (k == n)) m set) (ground arith))

-- The iteration over a `HashSet` visits its members and nothing else.
abbrev pub IsIteration : (List ℕ → List ℕ) → Type 0
IsIteration order = (set : List ℕ) (n : ℕ) → contains n (order set) ≡ contains n set

-- No single number is left.
pub remaining_singles_none :
    (order : List ℕ → List ℕ) (set : List ℕ) (ranges : Pairs)
    → IsIteration order
    → All IsRange ranges
    → All (IsCoveredSingle ranges) (order set)
    → remaining_singles (order set) set ranges ≡ []
remaining_singles_none order set ranges fair h cs =
    contains-nil (remaining_singles (order set) set ranges)
      (λ n. contains-remaining_singles (order set) set ranges n h cs ∙ ground (arith, fair set n))

pub order-nil : (order : List ℕ → List ℕ) → IsIteration order → order [] ≡ []
order-nil order fair = contains-nil (order []) (fair [])

pub kept_singles-nil : (ranges : Pairs) → kept_singles ranges [] ≡ []
unfolding kept_singles retain
kept_singles-nil [] = refl
kept_singles-nil (r ∷ ranges) = kept_singles-nil ranges
