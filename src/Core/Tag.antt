-- ===== src/Core/Tag.antt =====
-- `Tag` of imap-types/src/core.rs: one or more astring characters other than `+`.
use imap_codec.Prelude.{ℕ, Bool, ◌&&◌, not, ◌==◌, ◌>>◌, ok, Bytes}
use imap_codec.Indicators.{is_astring_char}
use imap_codec.Core.Validation.{Checked, validate_nonempty}

pub record Tag : Type 0 where
  pub inner : Bytes

-- The negation of the closure that `validate` searches with.
unfoldable pub is_tag_char : ℕ → Bool
unfolding is_astring_char
is_tag_char b = is_astring_char b && not (b == b'+')

unfoldable pub validate : Bytes → Checked (Unit {0})
validate value = validate_nonempty is_tag_char value

unfoldable pub try_from : Bytes → Checked Tag
try_from value = validate value >> ok (record { inner = value })
