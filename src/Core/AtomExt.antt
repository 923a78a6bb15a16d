-- ===== src/Core/AtomExt.antt =====
-- `AtomExt` of imap-types/src/core.rs: one or more astring characters.
use imap_codec.Prelude.{◌>>◌, ok, Bytes}
use imap_codec.Indicators.{is_astring_char}
use imap_codec.Core.Atom.{Atom}
use imap_codec.Core.Validation.{Checked, validate_nonempty}

pub record AtomExt : Type 0 where
  pub inner : Bytes

unfoldable pub validate : Bytes → Checked (Unit {0})
validate value = validate_nonempty is_astring_char value

unfoldable pub try_from : Bytes → Checked AtomExt
try_from value = validate value >> ok (record { inner = value })

unfoldable pub from_atom : Atom → AtomExt
from_atom value = record { inner = value.inner }
