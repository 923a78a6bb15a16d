-- ===== src/Core/Text.antt =====
-- `Text` of imap-types/src/core.rs: one or more text characters.
use imap_codec.Prelude.{◌>>◌, ok, Bytes}
use imap_codec.Indicators.{is_text_char}
use imap_codec.Core.Validation.{Checked, validate_nonempty}

pub record Text : Type 0 where
  pub inner : Bytes

unfoldable pub validate : Bytes → Checked (Unit {0})
validate value = validate_nonempty is_text_char value

unfoldable pub try_from : Bytes → Checked Text
try_from value = validate value >> ok (record { inner = value })
