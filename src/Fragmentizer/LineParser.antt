-- ===== src/Fragmentizer/LineParser.antt =====
-- `LineParser` of imap-codec/src/fragmentizer.rs.
pub mod Stream
pub mod Scan
pub mod Grammar
pub mod Announce
pub mod Line
mod Tests
use imap_codec.Prelude.{
  ℕ, ◌+◌, ◌-◌, ◌*◌, ◌^◌, Bool, ◌&&◌, Option, none, some, [], ◌∷◌, Bytes, leb, ◌==◌, if◌then◌else◌,
}
use imap_codec.Core.Literal.{sync, non_sync}
use imap_codec.Fragmentizer.Fragment.{
  LiteralAnnouncement, LineEnding, FragmentInfo, lf, cr_lf, line,
}

abbrev pub u32_max : ℕ
u32_max = 2 ^ 32 - 1

-- The latest byte seen by the parser with additional accumulated state.
pub data LatestByte : Type 0 where
  other : LatestByte
  opening_bracket : LatestByte
  digit : (length : ℕ) → LatestByte
  plus : (length : ℕ) → LatestByte
  closing_bracket : (announcement : LiteralAnnouncement) → LatestByte
  cr : (announcement : Option LiteralAnnouncement) → LatestByte

pub record LineParser : Type 0 where
  pub start : ℕ
  pub end : ℕ
  pub latest_byte : LatestByte

unfoldable pub new : ℕ → LineParser
new start = record { start = start; end = start; latest_byte = other }

-- `u32::checked_mul` and `u32::checked_add`.
unfoldable pub checked_mul : ℕ → ℕ → Option ℕ
checked_mul a b = if leb (a * b) u32_max then some (a * b) else none

unfoldable pub checked_add : ℕ → ℕ → Option ℕ
checked_add a b = if leb (a + b) u32_max then some (a + b) else none

-- `length.checked_mul(10).and_then(|x| x.checked_add(digit))`, and the state that it leads to.
unfoldable pub push_digit : ℕ → ℕ → LatestByte
unfolding checked_mul checked_add
push_digit length d = elim (checked_mul length 10) [
  | none ↦ other
  | some x ↦ elim (checked_add x d) [ none ↦ other | some length' ↦ digit length' ]
]

abbrev pub is_digit : ℕ → Bool
is_digit b = leb b'0' b && leb b b'9'

-- The arms of the `match` that every state but `Cr` shares: `\r`, `{` and everything else.
unfoldable pub plain : ℕ → LatestByte
plain b = if b == b'\r' then cr none else if b == b'{' then opening_bracket else other

-- The next state for a byte that is no `\n`.
unfoldable pub next_state : LatestByte → ℕ → LatestByte
unfolding plain push_digit
next_state other b = plain b
next_state opening_bracket b = if is_digit b then digit (b - b'0') else plain b
next_state (plus length) b =
    if b == b'}' then closing_bracket (record { mode = non_sync; length = length }) else plain b
next_state (digit length) b =
    if is_digit b
    then push_digit length (b - b'0')
    else if b == b'+'
    then plus length
    else if b == b'}'
    then closing_bracket (record { mode = sync; length = length })
    else plain b
next_state (closing_bracket a) b = if b == b'\r' then cr (some a) else plain b
next_state (cr _) b = plain b

-- What a `\n` in each state says of the line: the announced literal and the line's ending.
unfoldable pub line_facts : LatestByte → Option LiteralAnnouncement × LineEnding
line_facts (closing_bracket a) = (some a, lf)
line_facts (cr a) = (a, cr_lf)
line_facts other = (none, lf)
line_facts opening_bracket = (none, lf)
line_facts (digit _) = (none, lf)
line_facts (plus _) = (none, lf)

-- One round of the loop in `LineParser::parse`.
unfoldable pub step : LineParser → ℕ → LineParser × Option FragmentInfo
unfolding next_state line_facts
step p b =
    let end = p.end + 1 in
    let (announcement, ending) = line_facts p.latest_byte in
    if b == b'\n'
    then (record p { end = end; latest_byte = other }, some (line p.start end announcement ending))
    else (record p { end = end; latest_byte = next_state p.latest_byte b }, none)

-- `LineParser::parse`: the parser, the count of parsed bytes, and the line if it is complete.
unfoldable pub parse : LineParser → Bytes → LineParser × ℕ × Option FragmentInfo
unfolding step
parse p [] = (p, 0, none)
parse p (b ∷ bytes) =
    let (p', parsed_line) = step p b in
    elim parsed_line [
      | some found ↦ (p', 1, some found)
      | none ↦ let (p'', count, rest) = parse p' bytes in (p'', count + 1, rest)
    ]
