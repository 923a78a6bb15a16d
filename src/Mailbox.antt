-- ===== src/Mailbox.antt =====
-- imap-types/src/mailbox.rs: mailbox names and list patterns, with the reserved name INBOX.
pub mod Reserved
pub mod Patterns
mod Tests
use imap_codec.Prelude.{
  ℕ, zero, suc, ◌+◌, Bool, true, false, ◌&&◌, Option, none, some, Result, ok, err, [], ◌∷◌, Bytes,
  codes, leb, ◌==◌, if◌then◌else◌, ◌>>=◌, ◌>>◌,
}
use imap_codec.Indicators.{is_list_char}
use imap_codec.Core.AString
use imap_codec.Core.AString.{AString}
use imap_codec.Core.IString
use imap_codec.Core.Quoted
use imap_codec.Core.IString.{IString, quoted}
use imap_codec.Core.Validation.{Checked, ValidationError, validate_nonempty}

-- `u8::to_ascii_lowercase` and `eq_ignore_ascii_case`.
abbrev pub to_ascii_lowercase : ℕ → ℕ
to_ascii_lowercase b = if leb b'A' b && leb b b'Z' then b + 32 else b

unfoldable pub eq_ignore_ascii_case : Bytes → Bytes → Bool
eq_ignore_ascii_case [] [] = true
eq_ignore_ascii_case [] (c ∷ ys) = false
eq_ignore_ascii_case (b ∷ xs) [] = false
eq_ignore_ascii_case (b ∷ xs) (c ∷ ys) =
    to_ascii_lowercase b == to_ascii_lowercase c && eq_ignore_ascii_case xs ys

-- What may follow the first byte of a character in UTF-8: how many bytes, and the range of the
-- first of them.
unfoldable pub utf8_lead : ℕ → Option (ℕ × ℕ × ℕ)
utf8_lead b =
    if leb b 0x7f
    then some (0, 0, 0)
    else if leb 0xc2 b && leb b 0xdf
    then some (1, 0x80, 0xbf)
    else if b == 0xe0
    then some (2, 0xa0, 0xbf)
    else if b == 0xed
    then some (2, 0x80, 0x9f)
    else if leb 0xe1 b && leb b 0xef
    then some (2, 0x80, 0xbf)
    else if b == 0xf0
    then some (3, 0x90, 0xbf)
    else if leb 0xf1 b && leb b 0xf3
    then some (3, 0x80, 0xbf)
    else if b == 0xf4
    then some (3, 0x80, 0x8f)
    else none

unfoldable pub utf8_from : ℕ → ℕ → ℕ → Bytes → Bool
utf8_from zero lo hi [] = true
utf8_from (suc n) lo hi [] = false
utf8_from zero lo hi (b ∷ bytes) = elim (utf8_lead b) [
  | none ↦ false
  | some (n, lo', hi') ↦ utf8_from n lo' hi' bytes
]
utf8_from (suc n) lo hi (b ∷ bytes) = leb lo b && leb b hi && utf8_from n 0x80 0xbf bytes

-- Whether `std::str::from_utf8` succeeds.
unfoldable pub is_utf8 : Bytes → Bool
unfolding utf8_from utf8_lead
is_utf8 bytes = utf8_from 0 0 0 bytes

pub record MailboxOther : Type 0 where
  pub inner : AString

pub data Mailbox : Type 0 where
  inbox : Mailbox
  other : MailboxOther → Mailbox

pub data MailboxOtherError : Type 0 where
  literal : ValidationError → MailboxOtherError
  reserved : MailboxOtherError

abbrev pub inbox_name : Bytes
inbox_name = codes "inbox"

unfoldable pub validate_other : Bytes → Result (Unit {0}) MailboxOtherError
validate_other value = if eq_ignore_ascii_case value inbox_name then err reserved else ok tt

-- `TryFrom<AString>` and the `TryFrom` of bytes and texts for `MailboxOther`.
unfoldable pub other_from_astring : AString → Result MailboxOther MailboxOtherError
other_from_astring value = validate_other (AString.as_ref value) >> ok (record { inner = value })

-- `?` turns a `ValidationError` into a `MailboxOtherError`.
unfoldable pub as_literal_error {ℓ} : {A : Type ℓ} → Checked A → Result A MailboxOtherError
as_literal_error (ok a) = ok a
as_literal_error (err e) = err (literal e)

unfoldable pub other_try_from : Bytes → Result MailboxOther MailboxOtherError
other_try_from value = do
  astring ← as_literal_error (AString.try_from value)
  other_from_astring astring

-- `.unwrap()`: `none` stands for a panic.
abbrev pub unwrap {ℓ κ} : {A : Type ℓ} {E : Type κ} → Result A E → Option A
unwrap (ok a) = some a
unwrap (err e) = none

unfoldable pub other_or_panic : Option MailboxOther → Option Mailbox
other_or_panic (some m) = some (other m)
other_or_panic none = none

unfoldable pub from_astring : AString → Option Mailbox
from_astring value =
    let bytes = AString.as_ref value in
    if is_utf8 bytes && eq_ignore_ascii_case bytes inbox_name
    then some inbox
    else other_or_panic (unwrap (other_from_astring value))

-- `TryFrom` of bytes and texts for `Mailbox`, by way of `AString`.
unfoldable pub try_from : Bytes → Checked (Option Mailbox)
try_from value = do astring ← AString.try_from value; ok (from_astring astring)

pub record ListCharString : Type 0 where
  pub inner : Bytes

unfoldable pub validate_list_char_string : Bytes → Checked (Unit {0})
validate_list_char_string value = validate_nonempty is_list_char value

unfoldable pub list_char_string_try_from : Bytes → Checked ListCharString
list_char_string_try_from value = validate_list_char_string value >> ok (record { inner = value })

pub data ListMailbox : Type 0 where
  token : ListCharString → ListMailbox
  string : IString → ListMailbox

-- For the empty text the source unwraps the conversion to a quoted string: `none` is its panic.
unfoldable pub list_mailbox_try_from : Bytes → Checked (Option ListMailbox)
list_mailbox_try_from [] =
    ok (elim (Quoted.try_from []) [ ok q ↦ some (string (quoted q)) | err _ ↦ none ])
list_mailbox_try_from (b ∷ s) = elim (list_char_string_try_from (b ∷ s)) [
  | ok lcs ↦ ok (some (token lcs))
  | err _ ↦ IString.try_from (b ∷ s) >>= λ t. ok (some (string t))
]
