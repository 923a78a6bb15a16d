-- ===== src/Core/Quoted.antt =====
-- `Quoted` of imap-types/src/core.rs: text characters, possibly none.
use imap_codec.Prelude.{◌>>◌, ok, Bytes}
use imap_codec.Indicators.{is_text_char}
use imap_codec.Core.Validation.{Checked, validate_bytes}

pub record Quoted : Type 0 where
  pub inner : Bytes

unfoldable pub validate : Bytes → Checked (Unit {0})
validate value = validate_bytes is_text_char value

unfoldable pub try_from : Bytes → Checked Quoted
try_from value = validate value >> ok (record { inner = value })
