-- ===== src/Core/Validation.antt =====
-- `ValidationError` of imap-types/src/error.rs, and the check that the types of
-- imap-types/src/core.rs share, a search for the first byte outside of a class.
use imap_codec.Prelude.{
  ℕ, suc, ◌+◌, ◌≡◌, ◌⊎◌, inl, inr, refl, ap, Bool, true, false, not, Option, none, some, [], ◌∷◌,
  ◌++◌, Bytes, length, All, All-middle, Result, ok, err, arith, if◌then◌else◌, Bool-cases,
}

pub data ValidationErrorKind : Type 0 where
  empty : ValidationErrorKind
  not_enough : (min : ℕ) → ValidationErrorKind
  invalid : ValidationErrorKind
  invalid_byte_at : (byte at : ℕ) → ValidationErrorKind

pub record ValidationError : Type 0 where
  pub kind : ValidationErrorKind

abbrev pub Checked {ℓ} : Type ℓ → Type ℓ
Checked A = Result A ValidationError

abbrev pub fail {ℓ} : {A : Type ℓ} → ValidationErrorKind → Checked A
fail kind = err (record { kind = kind })

-- `value.iter().position(|b| !p(*b))`, counted from `at`, with the byte at that position.
unfoldable pub position : (ℕ → Bool) → ℕ → Bytes → Option (ℕ × ℕ)
position p at [] = none
position p at (b ∷ value) = if not (p b) then some (b, at) else position p (suc at) value

-- The `if let Some(at) = ...` of every `validate`.
unfoldable pub validate_bytes : (ℕ → Bool) → Bytes → Checked (Unit {0})
validate_bytes p value = elim (position p 0 value) [
  | some (byte, at) ↦ fail (invalid_byte_at byte at)
  | none ↦ ok tt
]

-- The same behind the test for emptiness.
unfoldable pub validate_nonempty : (ℕ → Bool) → Bytes → Checked (Unit {0})
validate_nonempty p [] = fail empty
validate_nonempty p (b ∷ value) = validate_bytes p (b ∷ value)

module _ (p : ℕ → Bool) where
  -- The byte `b` at index `at` of the value is the first one that is outside of the class.
  pub record FirstInvalid (value : Bytes) (b at : ℕ) : Type 0 where
    pub before : Bytes
    pub after : Bytes
    pub parts : value ≡ before ++ b ∷ after
    pub valid : All (λ c. p c ≡ true) before
    pub outside : p b ≡ false
    pub index : at ≡ length before

  pub FirstInvalid-not_All :
      {value : Bytes} {b at : ℕ} → FirstInvalid value b at → ¬ (All (λ c. p c ≡ true) value)
  FirstInvalid-not_All {value} {b} f all =
      let good = All-middle (λ c. p c ≡ true) f.before b f.after (rw f.parts at all) in
      let bad = f.outside in cc

  -- A value has only bytes of the class, or a first one outside.
  abbrev Scanned : ℕ → Bytes → Option (ℕ × ℕ) → Type 0
  Scanned at value none = All (λ c. p c ≡ true) value
  Scanned at value (some (b, i)) = (j : ℕ) × (i ≡ at + j) × FirstInvalid value b j

  position-Scanned : (at : ℕ) (value : Bytes) → Scanned at value (position p at value)
  unfolding position
  position-Scanned at [] = tt
  position-Scanned at (b ∷ value) = elim (Bool-cases (p b)) [
    | inr out ↦ rw out (
      0,
      omega arith,
      record { before = []; after = value; parts = refl; valid = tt; outside = out; index = refl },
    )
    | inl good ↦
        rw good
          (shift b at value good (position p (suc at) value) (position-Scanned (suc at) value))
  ]
    where
      shift :
          (b at : ℕ) (value : Bytes)
          → p b ≡ true
          → (o : Option (ℕ × ℕ)) → Scanned (suc at) value o
          → Scanned at (b ∷ value) o
      shift b at value good none s = (good, s)
      shift b at value good (some (c, i)) (j, e, f) = (
        suc j,
        omega arith,
        record {
          before = b ∷ f.before;
          after = f.after;
          parts = ap (λ t. b ∷ t) f.parts;
          valid = (good, f.valid);
          outside = f.outside;
          index = ap suc f.index;
        },
      )

  -- Either a value is accepted and all its bytes are of the class, or it is refused with the first
  -- byte that is not and the index of this byte.
  pub validate_bytes_cases :
      (value : Bytes)
      → ((validate_bytes p value ≡ ok tt) × All (λ c. p c ≡ true) value)
        ⊎ ((b : ℕ) × (at : ℕ) × (validate_bytes p value ≡ fail (invalid_byte_at b at))
            × FirstInvalid value b at)
  unfolding validate_bytes
  validate_bytes_cases value = go (position p 0 value) refl (position-Scanned 0 value)
    where
      go :
          (o : Option (ℕ × ℕ))
          → position p 0 value ≡ o
          → Scanned 0 value o
          → ((validate_bytes p value ≡ ok tt) × All (λ c. p c ≡ true) value)
            ⊎ ((b : ℕ) × (at : ℕ) × (validate_bytes p value ≡ fail (invalid_byte_at b at))
                × FirstInvalid value b at)
      go none e s = inl (rw (e, validate_bytes), s)
      go (some (b, i)) e (j, same, f) =
          let i_is : j ≡ i = omega arith in inr (b, j, rw (e, i_is, validate_bytes), f)
