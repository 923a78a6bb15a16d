-- ===== src/Encode/Reading.antt =====
-- The loop around the fragmentizer that the module documentation of imap-codec/src/fragmentizer.rs
-- shows, for one message, and its rounds on the lines and literals of an encoded message.
use mathlib.Core.Option
use imap_codec.Prelude.{
  ℕ, zero, suc, ◌+◌, ◌-◌, ◌≤◌, ◌≡◌, ◌∙◌, ap, true, false, Option, none, some, List, [], ◌∷◌, ◌++◌,
  append_assoc, Bytes, length, arith, min, length-append, take-all, take-append_length,
  drop-append_length,
}
use imap_codec.Fragmentizer.Fragment.{
  FragmentInfo, line, literal, range, slice_inside, fragment_bytes_of,
}
use imap_codec.Fragmentizer.LineParser.{LineParser, other, line_facts}
use imap_codec.Fragmentizer.LineParser.Scan.{NoLf, scan, parse_line}
use imap_codec.Fragmentizer.LiteralParser
use imap_codec.Fragmentizer.LiteralParser.{LiteralParser}
use imap_codec.Fragmentizer.State.{
  Fragmentizer, Parser, line_parser, literal_parser, current_parser, parse_with, parser_after,
  progress, fragment_bytes, is_message_complete,
}
use imap_codec.Fragmentizer.State.Progress.{concluded, progress_lem}

abbrev pub prepend : Bytes → Fragmentizer × List Bytes → Fragmentizer × List Bytes
prepend found (f, fragments) = (f, found ∷ fragments)

-- The bytes of all fragments of a message, taken one by one until the message is complete. `none`
-- means that bytes are missing, that the fuel ran out, or a panic.
unfoldable pub read_message : ℕ → Fragmentizer → Option (Fragmentizer × List Bytes)
unfolding progress fragment_bytes is_message_complete
read_message zero f = none
read_message (suc fuel) f =
    let (f', fragment) = progress f in
    elim fragment [
      | none ↦ none
      | some found ↦ elim (fragment_bytes f' found) [
        | none ↦ none
        | some part ↦ elim (is_message_complete f') [
          | true ↦ some (f', part ∷ [])
          | false ↦ Option.map (prepend part) (read_message fuel f')
        ]
      ]
    ]

-- No limit, the bytes of the message so far, what is received beyond them, and the parser.
abbrev pub reading : Bytes → Bytes → Option Parser → Fragmentizer
reading buffer unparsed parser = record {
  unparsed_buffer = unparsed;
  max_message_size = none;
  max_message_size_exceeded = false;
  message_poisoned = false;
  message_buffer = buffer;
  parser = parser;
}

abbrev pub at_line : Bytes → Bytes → Fragmentizer
at_line buffer unparsed = reading buffer unparsed (
    some (line_parser (record { start = length buffer; end = length buffer; latest_byte = other })))

abbrev pub at_literal : ℕ → Bytes → Bytes → Fragmentizer
at_literal size buffer unparsed = reading buffer unparsed (
    some (literal_parser (record { start = length buffer; end = length buffer; remaining = size })))

-- What is parsed is cut off.
cut :
    (buffer parsed rest : Bytes) (parser : Option Parser) (p : Parser) (x : FragmentInfo)
    → concluded (reading buffer (parsed ++ rest) parser) (p, length parsed, some x)
      ≡ (reading (buffer ++ parsed) rest (parser_after x), some x)
cut buffer parsed rest parser p x =
    rw (take-append_length parsed rest, drop-append_length parsed rest)

-- A line is read.
pub progress-line :
    (buffer w rest : Bytes)
    → NoLf w
    → let facts = line_facts (scan other w) in
      let x = line (length buffer) (length buffer + length w + 1) facts.0 facts.1 in
      progress (at_line buffer (w ++ b'\n' ∷ rest))
      ≡ (reading (buffer ++ (w ++ b'\n' ∷ [])) rest (parser_after x), some x)
unfolding current_parser parse_with
progress-line buffer w rest h =
    let p : LineParser = record {
      start = length buffer;
      end = length buffer;
      latest_byte = other;
    } in
    let (announcement, ending) = line_facts (scan other w) in
    let end = length buffer + length w + 1 in
    let x = line (length buffer) end announcement ending in
    let p' : LineParser = record { start = length buffer; end = end; latest_byte = other } in
    let whole = w ++ b'\n' ∷ [] in
    let bytes : w ++ b'\n' ∷ rest ≡ whole ++ rest = rw append_assoc in
    let size : length w + 1 ≡ length whole = omega (arith, length-append w (b'\n' ∷ [])) in
    progress_lem (at_line buffer (w ++ b'\n' ∷ rest)) tt
    ∙ ap
        (λ (r : LineParser × ℕ × Option FragmentInfo).
          concluded (at_line buffer (w ++ b'\n' ∷ rest)) (line_parser (r.0), r.1, r.2))
        (parse_line p w rest h)
    ∙ ap (λ (u : Bytes). concluded (at_line buffer u) (line_parser p', length w + 1, some x)) bytes
    ∙ ap (λ (n : ℕ). concluded (at_line buffer (whole ++ rest)) (line_parser p', n, some x)) size
    ∙ cut buffer whole rest (some (line_parser p)) (line_parser p') x

literal_complete :
    (p : LiteralParser) (bytes : Bytes)
    → p.remaining ≤ length bytes
    → LiteralParser.parse p bytes ≡ (
      record p { end = p.end + p.remaining; remaining = 0 },
      p.remaining,
      some (literal p.start (p.end + p.remaining)),
    )
unfolding LiteralParser.parse
literal_complete p bytes h = ground arith

-- A literal is read.
pub progress-literal :
    (buffer data_bytes rest : Bytes)
    → let x = literal (length buffer) (length buffer + length data_bytes) in
      progress (at_literal (length data_bytes) buffer (data_bytes ++ rest))
      ≡ (reading (buffer ++ data_bytes) rest (parser_after x), some x)
unfolding current_parser parse_with
progress-literal buffer data_bytes rest =
    let size = length data_bytes in
    let p : LiteralParser = record {
      start = length buffer;
      end = length buffer;
      remaining = size;
    } in
    let p' : LiteralParser = record {
      start = length buffer;
      end = length buffer + size;
      remaining = 0;
    } in
    let enough : size ≤ length (data_bytes ++ rest) =
      omega (arith, length-append data_bytes rest) in
    progress_lem (at_literal size buffer (data_bytes ++ rest)) tt
    ∙ ap
        (λ (r : LiteralParser × ℕ × Option FragmentInfo).
          concluded (at_literal size buffer (data_bytes ++ rest)) (literal_parser (r.0), r.1, r.2))
        (literal_complete p (data_bytes ++ rest) enough)
    ∙ cut buffer data_bytes rest (some (literal_parser p)) (literal_parser p')
        (literal (length buffer) (length buffer + size))

-- The fragment that ends where the buffer ends.
pub fragment_bytes-last :
    (buffer part rest : Bytes) (parser : Option Parser) (x : FragmentInfo)
    → range x ≡ (length buffer, length buffer + length part)
    → fragment_bytes (reading (buffer ++ part) rest parser) x ≡ some part
unfolding fragment_bytes fragment_bytes_of
fragment_bytes-last buffer part rest parser x h =
    let start_in : min (length buffer) (length (buffer ++ part)) ≡ length buffer =
      omega (arith, length-append buffer part) in
    let end_in : min (length buffer + length part) (length (buffer ++ part))
        ≡ length buffer + length part =
      omega (arith, length-append buffer part) in
    let size : length buffer + length part - length buffer ≡ length part = omega arith in
    rw (h, start_in, end_in)
      (slice_inside (length buffer) (length buffer + length part) (buffer ++ part) (omega arith)
          (omega (arith, length-append buffer part))
        ∙ ap some
            (rw (size, drop-append_length buffer part) (take-all (length part) part (omega arith))))
