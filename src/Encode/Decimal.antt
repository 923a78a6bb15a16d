-- ===== src/Encode/Decimal.antt =====
-- `{}` of an unsigned number, as imap-codec/src/codec/encode.rs writes lengths and sequence
-- numbers.
use imap_codec.Prelude.{
  ℕ, zero, suc, ◌+◌, ◌/◌, ◌%◌, ◌≤◌, ◌<◌, ◌≡◌, ◌≢◌, inl, inr, [], ◌∷◌, ◌++◌, Bytes, ltb, true, false,
  All, All-append, arith, Bool-cases,
}
use mathlib.Core.List.{concat-ne-nil}
use imap_codec.Fragmentizer.LineParser.{u32_max}
use imap_codec.Fragmentizer.LineParser.Grammar.{IsDigit, value, Spells, value-append}

-- The digits of a number, with fuel.
unfoldable pub digits : ℕ → ℕ → Bytes
digits zero n = []
digits (suc fuel) n = elim (ltb n 10) [
  | true ↦ (b'0' + n) ∷ []
  | false ↦ digits fuel (n / 10) ++ (b'0' + n % 10) ∷ []
]

unfoldable pub display : ℕ → Bytes
unfolding digits
display n = digits (suc n) n

pub digits-small : (fuel n : ℕ) → n < 10 → digits (suc fuel) n ≡ (b'0' + n) ∷ []
unfolding digits
digits-small fuel n h = ground arith

pub digits-big :
    (fuel n : ℕ) → 10 ≤ n → digits (suc fuel) n ≡ digits fuel (n / 10) ++ (b'0' + n % 10) ∷ []
unfolding digits
digits-big fuel n h = ground arith

digits-IsDigit : (fuel n : ℕ) → All IsDigit (digits fuel n)
digits-IsDigit zero n = unfold digits in tt
digits-IsDigit (suc fuel) n = elim (Bool-cases (ltb n 10)) [
  | inl e ↦ let small : n < 10 = ground arith in rw (digits-small fuel n small) (omega arith)
  | inr e ↦
      let big : 10 ≤ n = ground arith in
      rw (digits-big fuel n big) (
        All-append IsDigit (digits fuel (n / 10)) ((b'0' + n % 10) ∷ [])
          (digits-IsDigit fuel (n / 10)) (omega arith))
]

value-digits : (fuel n : ℕ) → n < fuel → value 0 (digits fuel n) ≡ n
value-digits zero n h = absurd (omega arith)
value-digits (suc fuel) n h = elim (Bool-cases (ltb n 10)) [
  | inl e ↦ let small : n < 10 = ground arith in rw (digits-small fuel n small) (omega arith)
  | inr e ↦
      let big : 10 ≤ n = ground arith in
      rw (digits-big fuel n big, value-append, value-digits fuel (n / 10) (omega arith))
        (omega arith)
]

display_nonempty : (n : ℕ) → display n ≢ []
unfolding display
display_nonempty n = elim (Bool-cases (ltb n 10)) [
  | inl e ↦ let small : n < 10 = ground arith in rw (digits-small n n small) (λ h. cc)
  | inr e ↦ let big : 10 ≤ n = ground arith in rw (digits-big n n big) (concat-ne-nil _ _)
]

-- The digits that are written for a number of 32 bits are decimal digits, at least one of them,
-- that spell this number.
pub display-Spells : (n : ℕ) → n ≤ u32_max → Spells (display n) n
display-Spells n h = record {
  nonempty = display_nonempty n;
  digits = unfold display in digits-IsDigit (suc n) n;
  exact = unfold display in value-digits (suc n) n (omega arith);
  fits = h;
}

pub display-IsDigit : (n : ℕ) → All IsDigit (display n)
unfolding display
display-IsDigit n = digits-IsDigit (suc n) n
