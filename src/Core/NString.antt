-- ===== src/Core/NString.antt =====
-- `NString` of imap-types/src/core.rs: a string or `NIL`.
use mathlib.Core.Option
use imap_codec.Prelude.{◌>>=◌, ok, Bytes, Option, none, some}
use imap_codec.Core.IString
use imap_codec.Core.IString.{IString}
use imap_codec.Core.Validation.{Checked}

pub record NString : Type 0 where
  pub inner : Option IString

unfoldable pub nil : NString
nil = record { inner = none }

unfoldable pub into_option : NString → Option Bytes
into_option value = Option.map IString.as_ref value.inner

unfoldable pub try_from : Bytes → Checked NString
try_from value = IString.try_from value >>= λ s. ok (record { inner = some s })
