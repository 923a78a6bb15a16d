-- ===== src/Sequence/Normalize/Covered.antt =====
-- The numbers that the ranges of `SequenceSet::normalize` (imap-types/src/sequence.rs) hold while
-- single numbers are merged into them.
use imap_codec.Prelude.{
  ℕ, ◌≤◌, ◌<◌, ◌≡◌, inl, inr, refl, Bool, true, false, ◌&&◌, ◌||◌, [], ◌∷◌, any, All, arith, ltb,
  ◌==◌, Bool-cases,
}
use imap_codec.Sequence.Types.{u32_max}
use imap_codec.Sequence.Iter.{Pairs, saturating_suc}
use imap_codec.Sequence.Normalize.{range_contains, visit, visited, is_removed}

-- A range whose ends are numbers of type `NonZeroU32` in order. It is empty only at the greatest one.
abbrev pub IsRange : ℕ × ℕ → Type 0
IsRange r = (1 ≤ r.0) × (r.0 ≤ r.1) × (r.1 ≤ u32_max) × (saturating_suc r.0 ≤ r.1)

-- Some range holds the number.
abbrev pub covered : ℕ → Pairs → Bool
covered n ranges = any (λ r. range_contains r n) ranges

pub Bool-eq : (a b : Bool) → (a ≡ true → b ≡ true) → (b ≡ true → a ≡ true) → a ≡ b
Bool-eq true true f g = refl
Bool-eq true false f g = ground (arith, f refl)
Bool-eq false true f g = ground (arith, g refl)
Bool-eq false false f g = refl

module _ (n : ℕ) (nonzero : 1 ≤ n) where
  visit-IsRange : (r : ℕ × ℕ) → IsRange r → IsRange (visit n r).0
  unfolding visit
  visit-IsRange (a, b) h = ground arith

  visit_more :
      (r : ℕ × ℕ) (m : ℕ)
      → IsRange r
      → range_contains r m ≡ true
      → range_contains (visit n r).0 m ≡ true
  unfolding visit
  visit_more (a, b) m h e = ground arith

  visit_only :
      (r : ℕ × ℕ) (m : ℕ)
      → IsRange r
      → range_contains (visit n r).0 m ≡ true
      → range_contains r m || (m == n && ltb n u32_max) ≡ true
  unfolding visit
  visit_only (a, b) m h e = ground arith

  pub visited-IsRange : (ranges : Pairs) → All IsRange ranges → All IsRange (visited n ranges)
  unfolding visited
  visited-IsRange [] h = tt
  visited-IsRange (r ∷ ranges) (hr, h) = (visit-IsRange r hr, visited-IsRange ranges h)

  visited_more :
      (ranges : Pairs) (m : ℕ)
      → All IsRange ranges
      → covered m ranges ≡ true
      → covered m (visited n ranges) ≡ true
  unfolding visited
  visited_more [] m h e = e
  visited_more (r ∷ ranges) m (hr, h) e = ground (arith, visit_more r m hr, visited_more ranges m h)

  visited_only :
      (ranges : Pairs) (m : ℕ)
      → All IsRange ranges
      → covered m (visited n ranges) ≡ true
      → (covered m ranges || (m == n && ltb n u32_max)) ≡ true
  unfolding visited
  visited_only [] m h e = cc
  visited_only (r ∷ ranges) m (hr, h) e = elim (Bool-cases (range_contains (visit n r).0 m)) [
    | inl c ↦ ground (arith, visit_only r m hr c)
    | inr c ↦ ground (arith, visited_only ranges m h)
  ]

  -- Nothing new is covered if the number is already.
  pub covered-visited :
      (ranges : Pairs) (m : ℕ)
      → All IsRange ranges
      → (n < u32_max → covered n ranges ≡ true)
      → covered m (visited n ranges) ≡ covered m ranges
  covered-visited ranges m h c =
      Bool-eq (covered m (visited n ranges)) (covered m ranges)
        (λ e. elim (Bool-cases (covered m ranges)) [
          | inl e' ↦ e'
          | inr e' ↦
              let only : (m == n && ltb n u32_max) ≡ true =
                ground (arith, visited_only ranges m h e) in
              let same : m ≡ n = ground arith in rw same (c (ground arith))
        ])
        (visited_more ranges m h)

  pub is_removed-covered : (ranges : Pairs) → covered n ranges ≡ true → is_removed n ranges ≡ true
  unfolding is_removed visit
  is_removed-covered [] h = h
  is_removed-covered (r ∷ ranges) h = ground (arith, is_removed-covered ranges)

  pub is_removed-ends :
      (ranges : Pairs) → any (λ r. r.1 == n) ranges ≡ true → is_removed n ranges ≡ true
  unfolding is_removed visit
  is_removed-ends [] h = h
  is_removed-ends (r ∷ ranges) h = ground (arith, is_removed-ends ranges)

-- The ends of ranges stay as they are.
pub ends-visited :
    (n m : ℕ) (ranges : Pairs) → any (λ r. r.1 == m) (visited n ranges) ≡ any (λ r. r.1 == m) ranges
unfolding visited visit
ends-visited n m [] = refl
ends-visited n m (r ∷ ranges) = ground (arith, ends-visited n m ranges)

-- A number that is nonzero, and is covered if that can be seen.
abbrev pub IsCoveredSingle : Pairs → ℕ → Type 0
IsCoveredSingle ranges n =
    (1 ≤ n)
    × ((n < u32_max) → covered n ranges ≡ true)
    × ((u32_max ≤ n) → any (λ r. r.1 == n) ranges ≡ true)
