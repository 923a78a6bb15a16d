-- ===== src/Fragmentizer/LiteralParser.antt =====
-- `LiteralParser` of imap-codec/src/fragmentizer.rs.
use imap_codec.Prelude.{ℕ, ◌+◌, ◌-◌, Option, none, some, Bytes, length, ltb, if◌then◌else◌}
use imap_codec.Fragmentizer.Fragment.{FragmentInfo, literal}

pub record LiteralParser : Type 0 where
  pub start : ℕ
  pub end : ℕ
  pub remaining : ℕ

unfoldable pub new : ℕ → ℕ → LiteralParser
new start length = record { start = start; end = start; remaining = length }

unfoldable pub parse : LiteralParser → Bytes → LiteralParser × ℕ × Option FragmentInfo
parse p bytes =
    let waiting = length bytes in
    let complete = p.remaining in
    if ltb (length bytes) p.remaining
    then (record p { end = p.end + waiting; remaining = p.remaining - waiting }, waiting, none)
    else (
      record p { end = p.end + complete; remaining = 0 },
      complete,
      some (literal p.start (p.end + complete)),
    )
