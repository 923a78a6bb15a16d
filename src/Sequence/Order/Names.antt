-- ===== src/Sequence/Order/Names.antt =====
-- What `normalize` and `partial_cmp` (imap-types/src/sequence.rs) mean for the numbers that
-- sequences name.
use Prim.Native.Nat.{Ordering}
use imap_codec.Prelude.{
  ℕ, ◌≤◌, ◌<◌, ◌≡◌, ◌↔◌, ◌⊎◌, inl, inr, refl, ap, Bool, true, false, ◌&&◌, none, some, ==_iff,
  Bool-cases, if◌then◌else◌, ltb, arith,
}
use imap_codec.Sequence.Types.{SeqOrUid, value, asterisk, Sequence, single, range, cmp, expand}
use imap_codec.Sequence.Iter.Ascending.{Names}
use imap_codec.Sequence.Order.{same_seq, less, seq_min, seq_max, normalize, partial_cmp}

same_seq-eq : (a b : SeqOrUid) → same_seq a b ≡ true → a ≡ b
unfolding same_seq
same_seq-eq (value a) (value b) h = ap value ((==_iff a b).0 h)
same_seq-eq (value a) asterisk h = cc
same_seq-eq asterisk (value b) h = cc
same_seq-eq asterisk asterisk h = refl

normalize_cases :
    (a b : SeqOrUid)
    → ((normalize (range a b) ≡ single a) × (a ≡ b))
      ⊎ ((normalize (range a b) ≡ range b a) ⊎ (normalize (range a b) ≡ range a b))
unfolding normalize
normalize_cases a b = elim (Bool-cases (same_seq a b)) [
  | inl e ↦ inl (ground arith, same_seq-eq a b e)
  | inr e ↦ elim (Bool-cases (less b a)) [
    | inl e' ↦ inr (inl (ground arith))
    | inr e' ↦ inr (inr (ground arith))
  ]
]

-- Normalizing a sequence does not change which numbers it names, whatever the largest number is.
pub normalize-Names :
    (largest n : ℕ) (s : Sequence) → Names largest n (normalize s) ↔ Names largest n s
normalize-Names largest n (single a) = unfold normalize in (λ e. e, λ e. e)
normalize-Names largest n (range a b) = elim (normalize_cases a b) [
  | inl (e, same) ↦
      let ends = ap (λ (x : SeqOrUid). expand x largest) same in
      rw e ((λ h. inl (omega arith)), λ h. grind arith)
  | inr (inl e) ↦ rw e ((λ h. grind arith), λ h. grind arith)
  | inr (inr e) ↦ rw e ((λ h. h), λ h. h)
]

-- Every number that is written in the sequence is below the largest number.
abbrev pub IsBelow : ℕ → SeqOrUid → Type 0
IsBelow largest (value n) = n < largest
IsBelow largest asterisk = Unit

abbrev pub IsBelowSequence : ℕ → Sequence → Type 0
IsBelowSequence largest (single a) = IsBelow largest a
IsBelowSequence largest (range a b) = IsBelow largest a × IsBelow largest b

module _ (largest : ℕ) where
  less-ltb :
      (a b : SeqOrUid)
      → IsBelow largest a
      → IsBelow largest b
      → less a b ≡ ltb (expand a largest) (expand b largest)
  unfolding less cmp expand
  less-ltb (value a) (value b) ha hb = ground arith
  less-ltb (value a) asterisk ha hb = ground arith
  less-ltb asterisk (value b) ha hb = ground arith
  less-ltb asterisk asterisk ha hb = ground arith

  less→lt :
      (a b : SeqOrUid)
      → IsBelow largest a
      → IsBelow largest b
      → less a b ≡ true
      → expand a largest < expand b largest
  less→lt a b ha hb h = let same = less-ltb a b ha hb in ground arith

  seq_min-IsBelow :
      (a b : SeqOrUid)
      → IsBelow largest a
      → IsBelow largest b
      → IsBelow largest (seq_min a b)
        × (expand (seq_min a b) largest ≤ expand a largest)
        × (expand (seq_min a b) largest ≤ expand b largest)
  unfolding seq_min
  seq_min-IsBelow a b ha hb = elim (Bool-cases (less b a)) [
    | inl e ↦ let lt = less→lt b a hb ha e in rw e (hb, omega arith, omega arith)
    | inr e ↦
        let le : expand a largest ≤ expand b largest =
          let same = less-ltb b a hb ha in ground arith in
        rw e (ha, omega arith, omega arith)
  ]

  seq_max-IsBelow :
      (a b : SeqOrUid)
      → IsBelow largest a
      → IsBelow largest b
      → IsBelow largest (seq_max a b)
        × (expand a largest ≤ expand (seq_max a b) largest)
        × (expand b largest ≤ expand (seq_max a b) largest)
  unfolding seq_max
  seq_max-IsBelow a b ha hb = elim (Bool-cases (less b a)) [
    | inl e ↦ let lt = less→lt b a hb ha e in rw e (ha, omega arith, omega arith)
    | inr e ↦
        let le : expand a largest ≤ expand b largest =
          let same = less-ltb b a hb ha in ground arith in
        rw e (hb, omega arith, omega arith)
  ]

first_test :
    (x y : Bool)
    → (if x then some Ordering.lt else if y then some Ordering.gt else none) ≡ some Ordering.lt
    → x ≡ true
first_test true y h = refl
first_test false true h = cc
first_test false false h = cc

second_test :
    (x y : Bool)
    → (if x then some Ordering.gt else if y then some Ordering.lt else none) ≡ some Ordering.lt
    → y ≡ true
second_test true y h = cc
second_test false true h = refl
second_test false false h = cc

only_lt :
    (o : Ordering)
    → some o ≡ some Ordering.lt
    → (elim o [ Ordering.lt ↦ true | Ordering.eq ↦ false | Ordering.gt ↦ false ]) ≡ true
only_lt Ordering.lt h = refl
only_lt Ordering.eq h = cc
only_lt Ordering.gt h = cc

less-cmp : (a b : SeqOrUid) → some (cmp a b) ≡ some Ordering.lt → less a b ≡ true
unfolding less
less-cmp a b h = only_lt (cmp a b) h

-- If `partial_cmp` says that a sequence is less than another one, and all numbers that are written
-- in the two are below the largest number, then every number that the first one names is below
-- every number that the second one names.
pub partial_cmp-Names :
    (largest : ℕ) (s t : Sequence)
    → IsBelowSequence largest s
    → IsBelowSequence largest t
    → partial_cmp s t ≡ some Ordering.lt
    → (m n : ℕ) → Names largest m s
    → Names largest n t
    → m < n
unfolding partial_cmp
partial_cmp-Names largest (single a) (single b) ha hb h m n hm hn =
    let lt : expand a largest < expand b largest = less→lt largest a b ha hb (less-cmp a b h) in
    omega arith
partial_cmp-Names largest (single a) (range b1 b2) ha (h1, h2) h m n hm hn =
    let (below, le1, le2) = seq_min-IsBelow largest b1 b2 h1 h2 in
    let lt = less→lt largest a (seq_min b1 b2) ha below (first_test _ _ h) in grind arith
partial_cmp-Names largest (range a1 a2) (single b) (h1, h2) hb h m n hm hn =
    let (below, le1, le2) = seq_max-IsBelow largest a1 a2 h1 h2 in
    let lt = less→lt largest (seq_max a1 a2) b below hb (second_test _ _ h) in grind arith
partial_cmp-Names largest (range a1 a2) (range b1 b2) (h1, h2) (k1, k2) h m n hm hn =
    let (below, le1, le2) = seq_max-IsBelow largest a1 a2 h1 h2 in
    let (e1, e2) = both (less (seq_max a1 a2) b1) (less (seq_max a1 a2) b2) (first_test _ _ h) in
    let lt1 = less→lt largest (seq_max a1 a2) b1 below k1 e1 in
    let lt2 = less→lt largest (seq_max a1 a2) b2 below k2 e2 in grind arith
  where
    both : (x y : Bool) → (x && y) ≡ true → (x ≡ true) × (y ≡ true)
    both true y h = (refl, h)
    both false y h = cc
