-- ===== src/Sequence/Iter/Ranges.antt =====
-- The pairs that `cleanup` of imap-types/src/sequence.rs works on, as ranges of numbers.
use imap_codec.Prelude.{
  ℕ, ◌+◌, ◌≤◌, ◌≡◌, ◌↔◌, ◌⊎◌, inl, inr, Bool, true, ◌&&◌, ◌||◌, [], ◌∷◌, ltb, leb, ◌==◌, Bool-cases,
  max, arith, All, leb→le,
}
use imap_codec.Sequence.Types.{u32_max}
use imap_codec.Sequence.Iter.{Pairs, insert_pair, sort_pairs, merge_pairs, saturating_suc}

abbrev pub InRange : ℕ → ℕ × ℕ → Type 0
InRange n p = (p.0 ≤ n) × (n ≤ p.1)

-- One of the ranges holds the number.
abbrev pub Covered : ℕ → Pairs → Type 0
Covered n [] = ⊥
Covered n (p ∷ ranges) = InRange n p ⊎ Covered n ranges

-- A range of `u32` numbers that is not empty.
abbrev pub IsRange : ℕ × ℕ → Type 0
IsRange p = (p.0 ≤ p.1) × (p.1 ≤ u32_max)

abbrev pub SortedFrom : ℕ → Pairs → Type 0
SortedFrom lo [] = Unit
SortedFrom lo (p ∷ ranges) = (lo ≤ p.0) × SortedFrom p.0 ranges

-- Between two ranges a number is missing.
abbrev pub Separated : ℕ → Pairs → Type 0
Separated lo [] = Unit
Separated lo (p ∷ ranges) = (lo ≤ p.0) × (p.0 ≤ p.1) × Separated (p.1 + 2) ranges

abbrev goes_first : ℕ × ℕ → ℕ × ℕ → Bool
goes_first p q = ltb p.0 q.0 || (p.0 == q.0 && leb p.1 q.1)

insert_pair-Covered :
    (n : ℕ) (p : ℕ × ℕ) (ranges : Pairs) → Covered n (insert_pair p ranges) ↔ Covered n (p ∷ ranges)
unfolding insert_pair
insert_pair-Covered n p [] = (λ c. c, λ c. c)
insert_pair-Covered n p (q ∷ ranges) = elim (Bool-cases (goes_first p q)) [
  | inl e ↦ rw e (λ c. c, λ c. c)
  | inr e ↦ rw e (
      (
        elim [
          | inl q_in ↦ inr (inl q_in)
          | inr c ↦ elim ((insert_pair-Covered n p ranges).0 c) [
            | inl p_in ↦ inl p_in
            | inr rest ↦ inr (inr rest)
          ]
        ],
        elim [
          | inl p_in ↦ inr ((insert_pair-Covered n p ranges).1 (inl p_in))
          | inr (inl q_in) ↦ inl q_in
          | inr (inr rest) ↦ inr ((insert_pair-Covered n p ranges).1 (inr rest))
        ],
      ))
]

pub sort_pairs-Covered : (n : ℕ) (ranges : Pairs) → Covered n (sort_pairs ranges) ↔ Covered n ranges
unfolding sort_pairs
sort_pairs-Covered n [] = (λ c. c, λ c. c)
sort_pairs-Covered n (p ∷ ranges) = (
  λ c. elim ((insert_pair-Covered n p (sort_pairs ranges)).0 c) [
    | inl p_in ↦ inl p_in
    | inr rest ↦ inr ((sort_pairs-Covered n ranges).0 rest)
  ],
  elim [
    | inl p_in ↦ (insert_pair-Covered n p (sort_pairs ranges)).1 (inl p_in)
    | inr rest ↦
        (insert_pair-Covered n p (sort_pairs ranges)).1 (inr ((sort_pairs-Covered n ranges).1 rest))
  ],
)

insert_pair-SortedFrom :
    (lo : ℕ) (p : ℕ × ℕ) (ranges : Pairs)
    → lo ≤ p.0
    → SortedFrom lo ranges
    → SortedFrom lo (insert_pair p ranges)
unfolding insert_pair
insert_pair-SortedFrom lo p [] h s = (h, tt)
insert_pair-SortedFrom lo p (q ∷ ranges) h (hq, s) = elim (Bool-cases (goes_first p q)) [
  | inl e ↦ rw e (h, (ground arith, s))
  | inr e ↦ rw e (hq, insert_pair-SortedFrom q.0 p ranges (ground arith) s)
]

pub sort_pairs-SortedFrom : (ranges : Pairs) → SortedFrom 0 (sort_pairs ranges)
unfolding sort_pairs
sort_pairs-SortedFrom [] = tt
sort_pairs-SortedFrom (p ∷ ranges) =
    insert_pair-SortedFrom 0 p (sort_pairs ranges) (omega arith) (sort_pairs-SortedFrom ranges)

insert_pair-All :
    (p : ℕ × ℕ) (ranges : Pairs)
    → IsRange p
    → All IsRange ranges
    → All IsRange (insert_pair p ranges)
unfolding insert_pair
insert_pair-All p [] h a = (h, tt)
insert_pair-All p (q ∷ ranges) h (hq, a) = elim (Bool-cases (goes_first p q)) [
  | inl e ↦ rw e (h, (hq, a))
  | inr e ↦ rw e (hq, insert_pair-All p ranges h a)
]

pub sort_pairs-All : (ranges : Pairs) → All IsRange ranges → All IsRange (sort_pairs ranges)
unfolding sort_pairs
sort_pairs-All [] a = tt
sort_pairs-All (p ∷ ranges) (h, a) =
    insert_pair-All p (sort_pairs ranges) h (sort_pairs-All ranges a)

abbrev touches : ℕ × ℕ → ℕ × ℕ → Bool
touches last p = leb last.0 p.0 && leb p.0 (saturating_suc last.1)

-- Two ranges that touch cover what their union covers.
join_split :
    (n : ℕ) (last p : ℕ × ℕ) (ranges : Pairs)
    → touches last p ≡ true
    → Covered n ((last.0, max last.1 p.1) ∷ ranges)
    → Covered n (last ∷ p ∷ ranges)
join_split n last p ranges e (inr c) = inr (inr c)
join_split n last p ranges e (inl (a, b)) = elim (Bool-cases (leb n last.1)) [
  | inl low ↦ inl (a, leb→le n last.1 low)
  | inr high ↦ inr (inl (ground arith, ground arith))
]

join_merge :
    (n : ℕ) (last p : ℕ × ℕ) (ranges : Pairs)
    → touches last p ≡ true
    → Covered n (last ∷ p ∷ ranges)
    → Covered n ((last.0, max last.1 p.1) ∷ ranges)
join_merge n last p ranges e (inl (a, b)) = inl (a, omega arith)
join_merge n last p ranges e (inr (inl (a, b))) = inl (ground arith, omega arith)
join_merge n last p ranges e (inr (inr c)) = inr c

pub merge_pairs-Covered :
    (n : ℕ) (last : ℕ × ℕ) (ranges : Pairs)
    → Covered n (merge_pairs last ranges) ↔ Covered n (last ∷ ranges)
unfolding merge_pairs
merge_pairs-Covered n last [] = (λ c. c, λ c. c)
merge_pairs-Covered n last (p ∷ ranges) = elim (Bool-cases (touches last p)) [
  | inr apart ↦
      let rest = merge_pairs-Covered n p ranges in
      rw apart (
        elim [ inl c ↦ inl c | inr c ↦ inr (rest.0 c) ],
        elim [ inl c ↦ inl c | inr c ↦ inr (rest.1 c) ],
      )
  | inl close ↦
      let rest = merge_pairs-Covered n (last.0, max last.1 p.1) ranges in
      rw close (
        λ c. join_split n last p ranges close (rest.0 c),
        λ c. rest.1 (join_merge n last p ranges close c),
      )
]

pub Separated-weaken :
    (lo lo' : ℕ) (ranges : Pairs) → lo' ≤ lo → Separated lo ranges → Separated lo' ranges
Separated-weaken lo lo' [] h s = tt
Separated-weaken lo lo' (p ∷ ranges) h (a, b, s) = (omega arith, b, s)

SortedFrom-weaken :
    (lo lo' : ℕ) (ranges : Pairs) → lo' ≤ lo → SortedFrom lo ranges → SortedFrom lo' ranges
SortedFrom-weaken lo lo' [] h s = tt
SortedFrom-weaken lo lo' (p ∷ ranges) h (a, s) = (omega arith, s)

pub merge_pairs-Separated :
    (last : ℕ × ℕ) (ranges : Pairs)
    → IsRange last
    → All IsRange ranges
    → SortedFrom last.0 ranges
    → Separated last.0 (merge_pairs last ranges)
unfolding merge_pairs
merge_pairs-Separated last [] h a s = (omega arith, h.0, tt)
merge_pairs-Separated last (p ∷ ranges) h (hp, a) (hs, s) = elim (Bool-cases (touches last p)) [
  | inl close ↦ rw close (
      merge_pairs-Separated (last.0, max last.1 p.1) ranges (omega arith) a
        (SortedFrom-weaken p.0 last.0 ranges hs s))
  | inr apart ↦ rw apart (
    omega arith,
    h.0,
    Separated-weaken p.0 (last.1 + 2) (merge_pairs p ranges) (ground arith)
        (merge_pairs-Separated p ranges hp a s),
  )
]
