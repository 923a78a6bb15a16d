-- ===== src/Sequence/Parse/Numbers.antt =====
-- Numbers that are written (imap-codec/src/codec/encode.rs) and read again by
-- imap-types/src/sequence.rs.
use imap_codec.Prelude.{
  ℕ, zero, suc, ◌+◌, ◌-◌, ◌*◌, ◌/◌, ◌≤◌, ◌<◌, ◌≡◌, ◌∙◌, refl, ap, false, some, [], ◌∷◌, ◌++◌, Bytes,
  All, arith, ltb, ◌==◌, Bool-cases, inl, inr, ok,
}
use imap_codec.Fragmentizer.LineParser.{u32_max, checked_mul, checked_add}
use imap_codec.Fragmentizer.LineParser.Grammar.{IsDigit, value, Spells, le-value}
use imap_codec.Encode.Decimal.{digits, display, display-Spells, digits-small, digits-big}
use imap_codec.Sequence.Types
use imap_codec.Sequence.Types.{IsNonZero}
use imap_codec.Sequence.Parse.{
  parse_digits, parse_number, parse_u32, parse_non_zero_u32, seq_or_uid_from_str, is_asterisk,
}

parse_digits-value :
    (n : ℕ) (ds : Bytes)
    → All IsDigit ds
    → value n ds ≤ u32_max
    → parse_digits n ds ≡ some (value n ds)
unfolding parse_digits checked_mul checked_add
parse_digits-value n [] h fits = refl
parse_digits-value n (d ∷ ds) (hd, h) fits =
    let lower = le-value (n * 10 + (d - b'0')) ds in
    let rest = parse_digits-value (n * 10 + (d - b'0')) ds h fits in ground (arith, rest)

-- The first digit is not 0.
LeadsWith : Bytes → Type 0
LeadsWith [] = ⊥
LeadsWith (d ∷ ds) = (b'1' ≤ d) × (d ≤ b'9')

LeadsWith-append : (xs ys : Bytes) → LeadsWith xs → LeadsWith (xs ++ ys)
unfolding LeadsWith
LeadsWith-append [] ys h = absurd h
LeadsWith-append (x ∷ xs) ys h = h

LeadsWith-digits : (fuel n : ℕ) → 1 ≤ n → n < fuel → LeadsWith (digits fuel n)
unfolding LeadsWith
LeadsWith-digits zero n h fits = absurd (omega arith)
LeadsWith-digits (suc fuel) n h fits = elim (Bool-cases (ltb n 10)) [
  | inl e ↦ let small : n < 10 = ground arith in rw (digits-small fuel n small) (omega arith)
  | inr e ↦
      let big : 10 ≤ n = ground arith in
      rw (digits-big fuel n big) (
        LeadsWith-append (digits fuel (n / 10)) _
          (LeadsWith-digits fuel (n / 10) (omega arith) (omega arith)))
]

parse_non_zero_u32-digits :
    (d : ℕ) (ds : Bytes) (n : ℕ)
    → LeadsWith (d ∷ ds)
    → parse_digits 0 (d ∷ ds) ≡ some n
    → 1 ≤ n
    → parse_non_zero_u32 (d ∷ ds) ≡ some n
unfolding parse_non_zero_u32 parse_u32 parse_number LeadsWith
parse_non_zero_u32-digits d ds n lead number large = ground arith

is_asterisk-digits : (d : ℕ) (ds : Bytes) → LeadsWith (d ∷ ds) → is_asterisk (d ∷ ds) ≡ false
unfolding LeadsWith
is_asterisk-digits d [] lead = ground arith
is_asterisk-digits d (c ∷ ds) lead = refl

read_number :
    (d : ℕ) (ds : Bytes) (n : ℕ)
    → LeadsWith (d ∷ ds)
    → parse_non_zero_u32 (d ∷ ds) ≡ some n
    → seq_or_uid_from_str (d ∷ ds) ≡ ok (Types.value n)
unfolding seq_or_uid_from_str LeadsWith
read_number d ds n lead number =
    let no_zero : (d == b'0') ≡ false = ground arith in
    rw (is_asterisk-digits d ds lead, no_zero, number)

-- Digits without a leading 0 are read as the number that they spell.
read_digits :
    (ds : Bytes) (n : ℕ)
    → LeadsWith ds
    → Spells ds n
    → 1 ≤ n
    → seq_or_uid_from_str ds ≡ ok (Types.value n)
unfolding LeadsWith
read_digits [] n lead h large = absurd lead
read_digits (d ∷ ds) n lead h large =
    let number : parse_digits 0 (d ∷ ds) ≡ some n =
      parse_digits-value 0 (d ∷ ds) h.digits (rw h.exact h.fits) ∙ ap some h.exact in
    read_number d ds n lead (parse_non_zero_u32-digits d ds n lead number large)

-- A `NonZeroU32` that is written is read as itself.
pub seq_or_uid_from_str-display :
    (n : ℕ) → IsNonZero n → seq_or_uid_from_str (display n) ≡ ok (Types.value n)
unfolding display
seq_or_uid_from_str-display n (large, fits) =
    read_digits (display n) n (LeadsWith-digits (suc n) n large (omega arith))
      (display-Spells n fits) large
