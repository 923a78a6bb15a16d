-- ===== src/Core/Atom.antt =====
-- `Atom` of imap-types/src/core.rs: one or more atom characters.
use imap_codec.Prelude.{◌>>◌, ok, Bytes}
use imap_codec.Indicators.{is_atom_char}
use imap_codec.Core.Validation.{Checked, validate_nonempty}

pub record Atom : Type 0 where
  pub inner : Bytes

unfoldable pub validate : Bytes → Checked (Unit {0})
validate value = validate_nonempty is_atom_char value

unfoldable pub try_from : Bytes → Checked Atom
try_from value = validate value >> ok (record { inner = value })
