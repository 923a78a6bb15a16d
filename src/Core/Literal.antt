-- ===== src/Core/Literal.antt =====
-- `Literal` of imap-types/src/core.rs: any bytes but NUL, with the mode of the literal.
use imap_codec.Prelude.{◌>>◌, ok, Bytes}
use imap_codec.Indicators.{is_char8}
use imap_codec.Core.Validation.{Checked, validate_bytes}

pub data LiteralMode : Type 0 where
  sync : LiteralMode
  non_sync : LiteralMode

pub record Literal : Type 0 where
  pub data_bytes : Bytes
  pub mode : LiteralMode

unfoldable pub validate : Bytes → Checked (Unit {0})
validate value = validate_bytes is_char8 value

unfoldable pub try_from : Bytes → Checked Literal
try_from value = validate value >> ok (record { data_bytes = value; mode = sync })

unfoldable pub set_mode : Literal → LiteralMode → Literal
set_mode literal mode = record literal { mode = mode }

unfoldable pub into_sync : Literal → Literal
into_sync literal = record literal { mode = sync }

unfoldable pub into_non_sync : Literal → Literal
into_non_sync literal = record literal { mode = non_sync }
