-- ===== src/Fragmentizer/Fragment.antt =====
-- The fragments of imap-codec/src/fragmentizer.rs.
use imap_codec.Core.Literal.{LiteralMode}
use imap_codec.Prelude.{
  ℕ, ◌-◌, ◌≤◌, ◌≡◌, Option, none, some, min, Bytes, length, take, drop, leb, ◌&&◌, if◌then◌else◌,
  arith,
}

pub record LiteralAnnouncement : Type 0 where
  pub mode : LiteralMode
  pub length : ℕ

pub data LineEnding : Type 0 where
  lf : LineEnding
  cr_lf : LineEnding

-- `start` is inclusive and `end` exclusive, both relative to the current message.
pub data FragmentInfo : Type 0 where
  line : (start end : ℕ) → Option LiteralAnnouncement → LineEnding → FragmentInfo
  literal : (start end : ℕ) → FragmentInfo

unfoldable pub range : FragmentInfo → ℕ × ℕ
range (line start end announcement ending) = (start, end)
range (literal start end) = (start, end)

-- `&bytes[start..end]`, which panics unless `start ≤ end ≤ bytes.len()`.
abbrev pub slice : ℕ → ℕ → Bytes → Option Bytes
slice start end bytes =
    if leb start end && leb end (length bytes)
    then some (take (end - start) (drop start bytes))
    else none

pub slice_inside :
    (start end : ℕ) (bytes : Bytes)
    → start ≤ end
    → end ≤ length bytes
    → slice start end bytes ≡ some (take (end - start) (drop start bytes))
slice_inside start end bytes h k = ground arith

-- `Fragmentizer::fragment_bytes` on a message buffer: both ends are capped by its length,
-- and a start behind the end is a panic.
unfoldable pub fragment_bytes_of : Bytes → FragmentInfo → Option Bytes
unfolding range
fragment_bytes_of buffer fragment =
    let (start, end) = range fragment in
    slice (min start (length buffer)) (min end (length buffer)) buffer
