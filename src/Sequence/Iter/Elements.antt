-- ===== src/Sequence/Iter/Elements.antt =====
-- The numbers of separated ranges, in order, as `SequenceSetIter` of imap-types/src/sequence.rs
-- walks over them.
use imap_codec.Prelude.{
  ℕ, zero, suc, ◌+◌, ◌-◌, ◌≤◌, ◌<◌, ◌≡◌, ◌↔◌, ◌⊎◌, inl, inr, List, [], ◌∷◌, ◌++◌, Bool-cases, ◌==◌,
  ==_iff, arith,
}
use imap_codec.Sequence.Iter.{Pairs}
use imap_codec.Sequence.Iter.Ranges.{InRange, Covered, Separated}
use imap_codec.Sequence.Iter.Yield.{up, numbers, all_numbers}

-- Strictly ascending from `lo` on.
abbrev pub Ascending : ℕ → List ℕ → Type 0
Ascending lo [] = Unit
Ascending lo (n ∷ l) = (lo ≤ n) × Ascending (n + 1) l

abbrev pub Elem : ℕ → List ℕ → Type 0
Elem n [] = ⊥
Elem n (m ∷ l) = (n ≡ m) ⊎ Elem n l

Elem-up : (n k a : ℕ) → Elem n (up k a) ↔ ((a ≤ n) × (n < a + k))
Elem-up n zero a = (λ e. absurd e, λ h. absurd (omega arith))
Elem-up n (suc k) a = (
  elim [ inl e ↦ omega arith | inr e ↦ let h = (Elem-up n k (a + 1)).0 e in omega arith ],
  λ (lo, hi). elim (Bool-cases (n == a)) [
    | inl e ↦ inl ((==_iff n a).0 e)
    | inr e ↦ inr ((Elem-up n k (a + 1)).1 (ground arith))
  ],
)

Elem-append : (n : ℕ) (xs ys : List ℕ) → Elem n (xs ++ ys) ↔ (Elem n xs ⊎ Elem n ys)
Elem-append n [] ys = (λ e. inr e, elim [ inl e ↦ absurd e | inr e ↦ e ])
Elem-append n (x ∷ xs) ys = (
  elim [
    | inl e ↦ inl (inl e)
    | inr e ↦ elim ((Elem-append n xs ys).0 e) [ inl l ↦ inl (inr l) | inr r ↦ inr r ]
  ],
  elim [
    | inl (inl e) ↦ inl e
    | inl (inr e) ↦ inr ((Elem-append n xs ys).1 (inl e))
    | inr e ↦ inr ((Elem-append n xs ys).1 (inr e))
  ],
)

numbers-up : (a b : ℕ) → a ≤ b → numbers (a, b) ≡ up (suc (b - a)) a
unfolding numbers
numbers-up a b h = ground arith

pub Elem-all_numbers :
    (n lo : ℕ) (ranges : Pairs)
    → Separated lo ranges
    → Elem n (all_numbers ranges) ↔ Covered n ranges
Elem-all_numbers n lo [] s = (λ e. e, λ e. e)
Elem-all_numbers n lo ((a, b) ∷ ranges) (h, le, s) =
    let rest = Elem-all_numbers n (b + 2) ranges s in
    let cut = Elem-append n (numbers (a, b)) (all_numbers ranges) in
    let here : Elem n (numbers (a, b)) ↔ InRange n (a, b) = rw (numbers-up a b le) (
      λ e. let h = (Elem-up n (suc (b - a)) a).0 e in omega arith,
      λ h. (Elem-up n (suc (b - a)) a).1 (omega arith),
    ) in
    (
      λ e. elim (cut.0 e) [ inl l ↦ inl (here.0 l) | inr r ↦ inr (rest.0 r) ],
      elim [ inl l ↦ cut.1 (inl (here.1 l)) | inr r ↦ cut.1 (inr (rest.1 r)) ],
    )

Ascending-weaken : (lo lo' : ℕ) (l : List ℕ) → lo' ≤ lo → Ascending lo l → Ascending lo' l
Ascending-weaken lo lo' [] h s = tt
Ascending-weaken lo lo' (n ∷ l) h (a, s) = (omega arith, s)

up-Ascending :
    (k a lo : ℕ) (rest : List ℕ) → lo ≤ a → Ascending (a + k) rest → Ascending lo (up k a ++ rest)
up-Ascending zero a lo rest h s = Ascending-weaken (a + 0) lo rest (omega arith) s
up-Ascending (suc k) a lo rest h s =
    let moved : a + suc k ≡ a + 1 + k = omega arith in
    (h, up-Ascending k (a + 1) (a + 1) rest (omega arith) (rw moved at s))

pub all_numbers-Ascending :
    (lo : ℕ) (ranges : Pairs) → Separated lo ranges → Ascending lo (all_numbers ranges)
all_numbers-Ascending lo [] s = tt
all_numbers-Ascending lo ((a, b) ∷ ranges) (h, le, s) =
    let rest = all_numbers-Ascending (b + 2) ranges s in
    rw (numbers-up a b le) (
      up-Ascending (suc (b - a)) a lo (all_numbers ranges) h
        (Ascending-weaken (b + 2) (a + suc (b - a)) (all_numbers ranges) (omega arith) rest))
