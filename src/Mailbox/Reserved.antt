-- ===== src/Mailbox/Reserved.antt =====
-- The reserved name INBOX (imap-types/src/mailbox.rs).
use imap_codec.Prelude.{
  ℕ, ◌<◌, ◌≡◌, ◌⊎◌, inl, inr, refl, true, false, some, [], ◌∷◌, Bytes, All, arith, Bool-cases,
}
use imap_codec.Core.AString
use imap_codec.Core.AString.{AString}
use imap_codec.Mailbox.{
  eq_ignore_ascii_case, is_utf8, utf8_from, utf8_lead, inbox_name, inbox, other, from_astring,
  validate_other, other_from_astring, other_or_panic,
}

utf8_from-ascii :
    (bytes : Bytes) (lo hi : ℕ) → All (λ b. b < 128) bytes → utf8_from 0 lo hi bytes ≡ true
unfolding utf8_from utf8_lead
utf8_from-ascii [] lo hi h = refl
utf8_from-ascii (b ∷ bytes) lo hi (hb, h) = ground (arith, utf8_from-ascii bytes 0 0 h)

ascii_of_eq :
    (xs ys : Bytes)
    → eq_ignore_ascii_case xs ys ≡ true
    → All (λ b. b < 128) ys
    → All (λ b. b < 128) xs
unfolding eq_ignore_ascii_case
ascii_of_eq [] ys e h = tt
ascii_of_eq (b ∷ xs) [] e h = cc
ascii_of_eq (b ∷ xs) (c ∷ ys) e (hc, h) = (ground arith, ascii_of_eq xs ys (ground arith) h)

is_utf8-inbox :
    (bytes : Bytes) → eq_ignore_ascii_case bytes inbox_name ≡ true → is_utf8 bytes ≡ true
unfolding is_utf8
is_utf8-inbox bytes e = utf8_from-ascii bytes 0 0 (ascii_of_eq bytes inbox_name e (omega arith))

-- Turning an `AString` into a mailbox never panics. It is INBOX exactly when its bytes spell `inbox`
-- in any case, and otherwise it keeps the name in the representation that it has.
pub from_astring_cases :
    (value : AString)
    → ((eq_ignore_ascii_case (AString.as_ref value) inbox_name ≡ true)
        × (from_astring value ≡ some inbox))
      ⊎ ((eq_ignore_ascii_case (AString.as_ref value) inbox_name ≡ false)
          × (from_astring value ≡ some (other (record { inner = value }))))
unfolding from_astring other_from_astring validate_other other_or_panic
from_astring_cases value =
    let bytes = AString.as_ref value in
    elim (Bool-cases (eq_ignore_ascii_case bytes inbox_name)) [
      | inl e ↦ inl (e, rw (e, is_utf8-inbox bytes e))
      | inr e ↦ inr (e, ground arith)
    ]
