-- ===== src/Core/QuotedChar.antt =====
-- `QuotedChar` of imap-types/src/core.rs: a character that a quoted string can hold.
use imap_codec.Prelude.{ℕ, ◌&&◌, ◌||◌, leb, ◌==◌, if◌then◌else◌, ◌>>◌, ok}
use imap_codec.Indicators.{is_any_text_char_except_quoted_specials}
use imap_codec.Core.Validation.{Checked, fail, invalid}

pub record QuotedChar : Type 0 where
  pub inner : ℕ

-- The argument is the code point of a `char`.
unfoldable pub validate : ℕ → Checked (Unit {0})
unfolding is_any_text_char_except_quoted_specials
validate input =
    if leb input 0x7f
      && (is_any_text_char_except_quoted_specials input || input == b'\\' || input == b'"')
    then ok tt
    else fail invalid

unfoldable pub try_from : ℕ → Checked QuotedChar
try_from value = validate value >> ok (record { inner = value })
