-- ===== src/Core/Charset.antt =====
-- `Charset` of imap-types/src/core.rs: an atom where the bytes allow it, or a quoted string.
use imap_codec.Prelude.{ok, err, Bytes, ◌>>=◌}
use imap_codec.Core.Atom
use imap_codec.Core.Atom.{Atom}
use imap_codec.Core.Quoted
use imap_codec.Core.Quoted.{Quoted}
use imap_codec.Core.Validation.{Checked}

pub data Charset : Type 0 where
  atom : Atom → Charset
  quoted : Quoted → Charset

unfoldable pub as_ref : Charset → Bytes
as_ref (atom a) = a.inner
as_ref (quoted q) = q.inner

unfoldable pub try_from : Bytes → Checked Charset
try_from value = elim (Atom.try_from value) [
  | ok a ↦ ok (atom a)
  | err _ ↦ Quoted.try_from value >>= λ q. ok (quoted q)
]
