-- ===== src/Mailbox/Patterns.antt =====
-- `ListMailbox` of imap-types/src/mailbox.rs: which representation a pattern has.
use mathlib.Core.List.{cons-ne-nil}
use imap_codec.Prelude.{
  ℕ, ◌≡◌, ◌≢◌, ◌⊎◌, inl, inr, refl, true, Option, some, [], ◌∷◌, Bytes, All, ok, ◌>>=◌,
}
use imap_codec.Indicators.{is_list_char, is_char8}
use imap_codec.Core.Validation.{
  Checked, ValidationErrorKind, fail, invalid_byte_at, FirstInvalid, validate_nonempty,
  validate_bytes, position, validate_bytes_cases,
}
use imap_codec.Core.Quoted
use imap_codec.Core.IString
use imap_codec.Core.IString.{IString, quoted}
use imap_codec.Core.Representation.{AsString, as_quoted, as_literal, has_nul, istring-AsString}
use imap_codec.Mailbox.{
  ListMailbox, token, string, validate_list_char_string, list_char_string_try_from,
  list_mailbox_try_from,
}

-- The densest representation of a pattern: a token, or a string.
pub data AsListMailbox (value : Bytes) : Checked (Option ListMailbox) → Type 0 where
  as_empty : value ≡ [] → AsListMailbox value (ok (some (string (quoted (record { inner = [] })))))
  as_token :
      value ≢ []
      → All (λ b. is_list_char b ≡ true) value
      → AsListMailbox value (ok (some (token (record { inner = value }))))
  as_string :
      {s : IString} {b at : ℕ}
      → FirstInvalid is_list_char value b at
      → AsString value (ok s)
      → AsListMailbox value (ok (some (string s)))
  refused :
      {at : ℕ}
      → FirstInvalid is_char8 value 0 at
      → AsListMailbox value (fail (invalid_byte_at 0 at))

string_case :
    (value : Bytes) {b at : ℕ}
    → FirstInvalid is_list_char value b at
    → (r : Checked IString) → AsString value r
    → AsListMailbox value (r >>= λ t. ok (some (string t)))
string_case value f _ (as_quoted texts) = as_string f (as_quoted texts)
string_case value f _ (as_literal first bytes) = as_string f (as_literal first bytes)
string_case value f _ (has_nul first) = refused first

list_char_string_cases :
    (b : ℕ) (s : Bytes)
    → ((list_char_string_try_from (b ∷ s) ≡ ok (record { inner = b ∷ s }))
        × All (λ c. is_list_char c ≡ true) (b ∷ s))
      ⊎ ((k : ValidationErrorKind) × (c : ℕ) × (at : ℕ) × (list_char_string_try_from (b ∷ s)
            ≡ fail k)
          × FirstInvalid is_list_char (b ∷ s) c at)
unfolding list_char_string_try_from validate_list_char_string validate_nonempty
list_char_string_cases b s = elim (validate_bytes_cases is_list_char (b ∷ s)) [
  | inl (e, chars) ↦ inl (rw e, chars)
  | inr (c, at, e, first) ↦ inr (invalid_byte_at c at, c, at, rw e, first)
]

-- `ListMailbox::try_from` never panics. It chooses the empty quoted string for the empty text, a
-- token for one or more list characters, otherwise a string (quoted if every byte is a text
-- character, else a literal), each with the bytes of the text, and fails exactly for a text with a
-- NUL byte, at the first one.
pub list_mailbox-AsListMailbox : (value : Bytes) → AsListMailbox value (list_mailbox_try_from value)
unfolding list_mailbox_try_from Quoted.try_from Quoted.validate validate_bytes position
list_mailbox-AsListMailbox [] = as_empty refl
list_mailbox-AsListMailbox (b ∷ s) = elim (list_char_string_cases b s) [
  | inl (e, chars) ↦ rw (e, list_mailbox_try_from) (as_token (cons-ne-nil b s) chars)
  | inr (k, c, at, e, first) ↦
      rw (e, list_mailbox_try_from)
        (string_case (b ∷ s) first (IString.try_from (b ∷ s)) (istring-AsString (b ∷ s)))
]
