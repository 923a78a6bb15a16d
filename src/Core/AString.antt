-- ===== src/Core/AString.antt =====
-- `AString` of imap-types/src/core.rs: an atom where the bytes allow it, or a string.
use imap_codec.Prelude.{ok, err, Bytes, ◌>>=◌}
use imap_codec.Core.Atom.{Atom}
use imap_codec.Core.AtomExt
use imap_codec.Core.AtomExt.{AtomExt}
use imap_codec.Core.IString
use imap_codec.Core.IString.{IString}
use imap_codec.Core.Validation.{Checked}

pub data AString : Type 0 where
  atom : AtomExt → AString
  string : IString → AString

unfoldable pub as_ref : AString → Bytes
as_ref (atom a) = a.inner
as_ref (string s) = IString.as_ref s

unfoldable pub from_atom : Atom → AString
from_atom a = atom (AtomExt.from_atom a)

-- `if let Ok(atom) = AtomExt::try_from(value)`, and the string else.
unfoldable pub try_from : Bytes → Checked AString
try_from value = elim (AtomExt.try_from value) [
  | ok a ↦ ok (atom a)
  | err _ ↦ IString.try_from value >>= λ s. ok (string s)
]
