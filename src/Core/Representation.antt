-- ===== src/Core/Representation.antt =====
-- Which representation the constructors of imap-types/src/core.rs choose for a byte string.
use mathlib.Core.List.{cons-ne-nil}
use imap_codec.Prelude.{
  ℕ, ◌≡◌, ◌≢◌, ◌⊎◌, inl, inr, refl, true, false, [], ◌∷◌, Bytes, All, ok, err, arith, subst, ◌>>=◌,
}
use imap_codec.Indicators.{is_astring_char, is_text_char, is_char8}
use imap_codec.Core.Validation.{
  Checked, ValidationErrorKind, fail, invalid_byte_at, empty, FirstInvalid, validate_bytes,
  validate_nonempty, validate_bytes_cases,
}
use imap_codec.Core.AtomExt
use imap_codec.Core.AtomExt.{AtomExt}
use imap_codec.Core.Quoted
use imap_codec.Core.Literal
use imap_codec.Core.Literal.{sync}
use imap_codec.Core.IString
use imap_codec.Core.IString.{IString, literal, quoted}
use imap_codec.Core.AString
use imap_codec.Core.AString.{AString, atom, string}

-- A value cannot be an atom: it is empty, or it has a byte that no atom has.
abbrev NoAtom : Bytes → Type 0
NoAtom value = (value ≡ []) ⊎ ((b : ℕ) × (at : ℕ) × FirstInvalid is_astring_char value b at)

-- The densest representation of a byte string as a string: quoted, then literal.
pub data AsString (value : Bytes) : Checked IString → Type 0 where
  as_quoted :
      All (λ b. is_text_char b ≡ true) value
      → AsString value (ok (quoted (record { inner = value })))
  as_literal :
      {b at : ℕ}
      → FirstInvalid is_text_char value b at
      → All (λ c. is_char8 c ≡ true) value
      → AsString value (ok (literal (record { data_bytes = value; mode = sync })))
  has_nul :
      {at : ℕ} → FirstInvalid is_char8 value 0 at → AsString value (fail (invalid_byte_at 0 at))

-- The densest representation as an atom or a string.
pub data AsAString (value : Bytes) : Checked AString → Type 0 where
  as_atom :
      value ≢ []
      → All (λ b. is_astring_char b ≡ true) value
      → AsAString value (ok (atom (record { inner = value })))
  as_string : {s : IString} → NoAtom value → AsString value (ok s) → AsAString value (ok (string s))
  refused :
      {at : ℕ} → FirstInvalid is_char8 value 0 at → AsAString value (fail (invalid_byte_at 0 at))

is_char8-false : (b : ℕ) → is_char8 b ≡ false → b ≡ 0
unfolding is_char8
is_char8-false b h = ground arith

-- A `validate` and the `try_from` behind it, by the bytes.
quoted_ok :
    (value : Bytes)
    → validate_bytes is_text_char value ≡ ok tt
    → Quoted.try_from value ≡ ok (record { inner = value })
unfolding Quoted.try_from Quoted.validate
quoted_ok value e = rw e

quoted_err :
    (value : Bytes) {k : ValidationErrorKind}
    → validate_bytes is_text_char value ≡ fail k
    → Quoted.try_from value ≡ fail k
unfolding Quoted.try_from Quoted.validate
quoted_err value e = rw e

literal_ok :
    (value : Bytes)
    → validate_bytes is_char8 value ≡ ok tt
    → Literal.try_from value ≡ ok (record { data_bytes = value; mode = sync })
unfolding Literal.try_from Literal.validate
literal_ok value e = rw e

literal_err :
    (value : Bytes) {k : ValidationErrorKind}
    → validate_bytes is_char8 value ≡ fail k
    → Literal.try_from value ≡ fail k
unfolding Literal.try_from Literal.validate
literal_err value e = rw e

-- `IString::try_from` chooses a quoted string if every byte is a text character, otherwise a
-- literal with the same bytes, and fails exactly for a value with a NUL byte, at the first one.
pub istring-AsString : (value : Bytes) → AsString value (IString.try_from value)
unfolding IString.try_from IString.literal_from
istring-AsString value = elim (validate_bytes_cases is_text_char value) [
  | inl (e, texts) ↦ rw (quoted_ok value e, IString.try_from) (as_quoted texts)
  | inr (b, at, e, first) ↦
      rw (quoted_err value e, IString.try_from)
        (elim (validate_bytes_cases is_char8 value) [
          | inl (e', bytes) ↦ rw (literal_ok value e') (as_literal first bytes)
          | inr (b', at', e', first') ↦
              let nul = is_char8-false b' first'.outside in
              rw (literal_err value e', nul)
                (has_nul (subst (λ c. FirstInvalid is_char8 value c at') nul first'))
        ])
]

-- `AtomExt::try_from` accepts one or more astring characters.
atom_ext_cases :
    (value : Bytes)
    → ((value ≢ [])
        × All (λ b. is_astring_char b ≡ true) value
        × (AtomExt.try_from value ≡ ok (record { inner = value })))
      ⊎ (NoAtom value × ((k : ValidationErrorKind) × (AtomExt.try_from value ≡ fail k)))
unfolding AtomExt.try_from AtomExt.validate validate_nonempty
atom_ext_cases [] = inr (inl refl, (empty, refl))
atom_ext_cases (b ∷ value) = elim (validate_bytes_cases is_astring_char (b ∷ value)) [
  | inl (e, chars) ↦ inl (cons-ne-nil b value, chars, rw e)
  | inr (c, at, e, first) ↦ inr (inr (c, at, first), (invalid_byte_at c at, rw e))
]

string_case :
    (value : Bytes)
    → NoAtom value
    → (r : Checked IString) → AsString value r
    → AsAString value (r >>= λ s. ok (string s))
string_case value n _ (as_quoted texts) = as_string n (as_quoted texts)
string_case value n _ (as_literal first bytes) = as_string n (as_literal first bytes)
string_case value n _ (has_nul first) = refused first

-- `AString::try_from` chooses an atom for one or more astring characters, otherwise a quoted
-- string if every byte is a text character, otherwise a literal, each with the bytes of the value,
-- and fails exactly for a value with a NUL byte, at the first one.
pub astring-AsAString : (value : Bytes) → AsAString value (AString.try_from value)
unfolding AString.try_from
astring-AsAString value = elim (atom_ext_cases value) [
  | inl (nonempty, chars, e) ↦ rw (e, AString.try_from) (as_atom nonempty chars)
  | inr (n, (k, e)) ↦
      rw (e, AString.try_from)
        (string_case value n (IString.try_from value) (istring-AsString value))
]

-- The value that a successful result stands for.
abbrev Keeps {ℓ} : {A : Type ℓ} → (A → Bytes) → Bytes → Checked A → Type 0
Keeps as_bytes value (ok a) = as_bytes a ≡ value
Keeps as_bytes value (err e) = Unit

string-Keeps :
    {value : Bytes} {r : Checked IString} → AsString value r → Keeps IString.as_ref value r
unfolding IString.as_ref
string-Keeps (as_quoted texts) = refl
string-Keeps (as_literal first bytes) = refl
string-Keeps (has_nul first) = tt

astring-Keeps :
    {value : Bytes} {r : Checked AString} → AsAString value r → Keeps AString.as_ref value r
unfolding AString.as_ref
astring-Keeps (as_atom nonempty chars) = refl
astring-Keeps (as_string n s) = string-Keeps s
astring-Keeps (refused first) = tt

-- If `AString::try_from` accepts a byte string, the result stands for the same bytes.
pub as_ref-try_from :
    (value : Bytes) {a : AString} → AString.try_from value ≡ ok a → AString.as_ref a ≡ value
as_ref-try_from value h =
    subst (Keeps AString.as_ref value) h (astring-Keeps (astring-AsAString value))
