-- ===== src/Core/IString.antt =====
-- `IString` of imap-types/src/core.rs: a quoted string where the bytes allow it, or a literal.
use imap_codec.Prelude.{ok, err, Bytes}
use imap_codec.Core.Literal
use imap_codec.Core.Literal.{Literal}
use imap_codec.Core.Quoted
use imap_codec.Core.Quoted.{Quoted}
use imap_codec.Core.Validation.{Checked}

pub data IString : Type 0 where
  literal : Literal → IString
  quoted : Quoted → IString

unfoldable pub as_ref : IString → Bytes
as_ref (quoted q) = q.inner
as_ref (literal l) = l.data_bytes

unfoldable pub literal_from : Checked Literal → Checked IString
literal_from (ok l) = ok (literal l)
literal_from (err e) = err e

-- `if let Ok(quoted) = Quoted::try_from(value)`, and the literal else.
unfoldable pub try_from : Bytes → Checked IString
try_from value = elim (Quoted.try_from value) [
  | ok q ↦ ok (quoted q)
  | err _ ↦ literal_from (Literal.try_from value)
]
