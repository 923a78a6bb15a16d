-- ===== src/Fragmentizer/LineParser/Scan.antt =====
-- What the line parser of imap-codec/src/fragmentizer.rs makes of one whole line.
use imap_codec.Prelude.{
  ℕ, ◌+◌, ◌≡◌, ◌≢◌, refl, none, some, [], ◌∷◌, ◌++◌, Bytes, length, All, arith,
}
use imap_codec.Fragmentizer.Fragment.{line}
use imap_codec.Fragmentizer.LineParser.{LineParser, LatestByte, next_state, line_facts, step, parse}

abbrev pub NoLf : Bytes → Type 0
NoLf = All (λ b. b ≢ b'\n')

-- The state behind bytes that hold no `\n`.
unfoldable pub scan : LatestByte → Bytes → LatestByte
scan s [] = s
scan s (b ∷ bytes) = scan (next_state s b) bytes

pub scan-append : (s : LatestByte) (xs ys : Bytes) → scan s (xs ++ ys) ≡ scan (scan s xs) ys
unfolding scan
scan-append s [] ys = refl
scan-append s (b ∷ xs) ys = scan-append (next_state s b) xs ys

module _ (p : LineParser) (b : ℕ) where
  step_plain :
      b ≢ b'\n'
      → step p b ≡ (record p { end = p.end + 1; latest_byte = next_state p.latest_byte b }, none)
  unfolding step
  step_plain h = ground arith

-- Without a `\n` everything is parsed, the state runs through all bytes, and no line is found.
pub parse-NoLf :
    (p : LineParser) (w : Bytes)
    → NoLf w
    → parse p w
      ≡ (record p { end = p.end + length w; latest_byte = scan p.latest_byte w }, length w, none)
unfolding parse scan
parse-NoLf p [] h = ground arith
parse-NoLf p (b ∷ w) (hb, hw) =
    let p' = record p { end = p.end + 1; latest_byte = next_state p.latest_byte b } in
    ground (arith, step_plain p b hb, parse-NoLf p' w hw)

-- A line ends behind the first `\n`: what follows it stays unparsed.
pub parse_line :
    (p : LineParser) (w rest : Bytes)
    → NoLf w
    → let facts = line_facts (scan p.latest_byte w) in
      let end = p.end + length w + 1 in
      parse p (w ++ b'\n' ∷ rest) ≡ (
        record p { end = end; latest_byte = LatestByte.other },
        length w + 1,
        some (line p.start end (facts.0) (facts.1)),
      )
unfolding parse scan
parse_line p [] rest h = unfold step in ground arith
parse_line p (b ∷ w) rest (hb, hw) =
    let p' = record p { end = p.end + 1; latest_byte = next_state p.latest_byte b } in
    ground (arith, step_plain p b hb, parse_line p' w rest hw)
