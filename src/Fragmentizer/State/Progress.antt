-- ===== src/Fragmentizer/State/Progress.antt =====
-- `Fragmentizer::progress` of imap-codec/src/fragmentizer.rs in one equation.
use imap_codec.Prelude.{
  ℕ, ◌+◌, ◌≤◌, ◌<◌, ◌≡◌, refl, Option, none, some, [], ◌∷◌, ◌++◌, Bytes, length, take, drop, arith,
  Option-cases, inl, inr, length-append,
}
use imap_codec.Fragmentizer.Fragment.{FragmentInfo, literal}
use imap_codec.Fragmentizer.LineParser
use imap_codec.Fragmentizer.LineParser.{LineParser}
use imap_codec.Fragmentizer.LineParser.Stream
use imap_codec.Fragmentizer.LiteralParser
use imap_codec.Fragmentizer.LiteralParser.{LiteralParser}
use imap_codec.Fragmentizer.State.{
  Fragmentizer, Parser, line_parser, literal_parser, current_parser, parse_with, parser_after,
  progress, conclude,
}
use imap_codec.Fragmentizer.State.Limit.{FitsLimit, absorb, dequeue-absorb}

line_count-le : (p : LineParser) (bytes : Bytes) → (LineParser.parse p bytes).1 ≤ length bytes
unfolding LineParser.parse
line_count-le p [] = omega arith
line_count-le p (b ∷ bytes) = ground (arith, line_count-le (LineParser.step p b).0 bytes)

-- A line that was found holds a byte.
line_count_pos :
    (p : LineParser) (bytes : Bytes) {found : FragmentInfo}
    → (LineParser.parse p bytes).2 ≡ some found
    → 0 < (LineParser.parse p bytes).1
unfolding LineParser.parse
line_count_pos p [] h = cc
line_count_pos p (b ∷ bytes) h = ground arith

line_none :
    (p : LineParser) (bytes : Bytes)
    → (LineParser.parse p bytes).2 ≡ none
    → (LineParser.parse p bytes).1 ≡ length bytes
unfolding LineParser.parse
line_none p [] h = refl
line_none p (b ∷ bytes) h = ground (arith, line_none (LineParser.step p b).0 bytes)

pub parse_with-count_le : (p : Parser) (bytes : Bytes) → (parse_with p bytes).1 ≤ length bytes
unfolding parse_with
parse_with-count_le (line_parser p) bytes = line_count-le p bytes
parse_with-count_le (literal_parser p) bytes = unfold LiteralParser.parse in ground arith

-- A line costs a byte; a literal parser finds a literal, which may be empty.
abbrev pub FragmentCost : Parser → ℕ → FragmentInfo → Type 0
FragmentCost (line_parser p) count found = 0 < count
FragmentCost (literal_parser p) count found = found ≡ literal p.start (p.end + p.remaining)

pub parse_with-FragmentCost :
    (p : Parser) (bytes : Bytes) {found : FragmentInfo}
    → (parse_with p bytes).2 ≡ some found
    → FragmentCost p (parse_with p bytes).1 found
unfolding parse_with
parse_with-FragmentCost (line_parser p) bytes h = line_count_pos p bytes h
parse_with-FragmentCost (literal_parser p) bytes h = unfold LiteralParser.parse in ground arith

abbrev pub continue : Bytes → Parser × ℕ × Option FragmentInfo → Parser × ℕ × Option FragmentInfo
continue ys (p, count, some found) = (p, count, some found)
continue ys (p, count, none) = let (p', more, found) = parse_with p ys in (p', count + more, found)

-- Where the input was cut is not seen in the result of the current parser.
pub parse_with-append :
    (p : Parser) (xs ys : Bytes) → parse_with p (xs ++ ys) ≡ continue ys (parse_with p xs)
unfolding parse_with
parse_with-append (line_parser p) xs ys = ground (arith, Stream.parse-append p xs ys)
parse_with-append (literal_parser p) xs ys =
    unfold LiteralParser.parse in ground (arith, length-append xs ys)

-- Without a fragment all bytes were parsed.
pub parse_with-none :
    (p : Parser) (bytes : Bytes)
    → (parse_with p bytes).2 ≡ none
    → (parse_with p bytes).1 ≡ length bytes
unfolding parse_with
parse_with-none (line_parser p) bytes h = line_none p bytes h
parse_with-none (literal_parser p) bytes h = unfold LiteralParser.parse in ground arith

-- The parser that `progress` leaves.
abbrev pub next_parser : Parser → Option FragmentInfo → Option Parser
next_parser p none = some p
next_parser p (some found) = parser_after found

-- What `progress` makes of the result of the current parser.
abbrev pub concluded :
    Fragmentizer → Parser × ℕ × Option FragmentInfo → Fragmentizer × Option FragmentInfo
concluded f (parser, count, found) = (
  record (absorb f (take count f.unparsed_buffer) (drop count f.unparsed_buffer)) {
    parser = next_parser parser found;
  },
  found,
)

-- The current parser is set up before any byte is read.
pub current_parser-unparsed :
    (f : Fragmentizer) → (current_parser f).0.unparsed_buffer ≡ f.unparsed_buffer
unfolding current_parser
current_parser-unparsed f = ground arith

pub current_parser-FitsLimit :
    (f : Fragmentizer)
    → FitsLimit f.max_message_size f.message_buffer
    → FitsLimit (current_parser f).0.max_message_size (current_parser f).0.message_buffer
unfolding current_parser
current_parser-FitsLimit f fits = elim (Option-cases f.parser) [
  | inl e ↦ elim (Option-cases f.max_message_size) [
    | inl m ↦ rw (e, m) tt
    | inr (size, m) ↦ rw (e, m) (omega arith)
  ]
  | inr (p, e) ↦ rw e fits
]

conclude_lem :
    (f : Fragmentizer) (result : Parser × ℕ × Option FragmentInfo)
    → FitsLimit f.max_message_size f.message_buffer
    → result.1 ≤ length f.unparsed_buffer
    → conclude f result ≡ concluded f result
unfolding conclude
conclude_lem f (p, count, none) fits h =
    rw (dequeue-absorb (record f { parser = some p }) count h fits)
conclude_lem f (p, count, some found) fits h =
    rw (dequeue-absorb (record f { parser = some p }) count h fits)

-- Every branch of `progress`, for a buffer that keeps to the limit.
pub progress_lem :
    (f : Fragmentizer)
    → FitsLimit f.max_message_size f.message_buffer
    → let start = current_parser f in
      progress f ≡ concluded (start.0) (parse_with start.1 (start.0).unparsed_buffer)
unfolding progress
progress_lem f fits =
    let (f', parser) = current_parser f in
    conclude_lem f' (parse_with parser f'.unparsed_buffer) (current_parser-FitsLimit f fits)
      (parse_with-count_le parser f'.unparsed_buffer)
