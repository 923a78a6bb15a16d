-- ===== src/Encode/Rounds.antt =====
-- One round of the reading loop (imap-codec/src/fragmentizer.rs) on a line that announces a
-- literal, on a literal, and on the last line of a message.
use mathlib.Core.Option
use imap_codec.Prelude.{
  ℕ, suc, ◌+◌, ◌≡◌, ◌∙◌, refl, ap, true, false, Option, none, some, [], ◌∷◌, ◌++◌, Bytes, length,
  arith, length-append,
}
use imap_codec.Fragmentizer.Fragment.{FragmentInfo, LiteralAnnouncement, line, literal, range}
use imap_codec.Fragmentizer.LineParser
use imap_codec.Fragmentizer.LineParser.{other, line_facts, u32_max}
use imap_codec.Fragmentizer.LineParser.Scan.{NoLf, scan}
use imap_codec.Fragmentizer.LiteralParser
use imap_codec.Fragmentizer.State.{
  Fragmentizer, Parser, parser_after, progress, fragment_bytes, is_message_complete,
}
use imap_codec.Encode.Reading.{
  read_message, prepend, reading, at_line, at_literal, progress-line, progress-literal,
  fragment_bytes-last,
}

read-more :
    (fuel : ℕ) (f : Fragmentizer) {f' : Fragmentizer} {x : FragmentInfo} {part : Bytes}
    → progress f ≡ (f', some x)
    → is_message_complete f' ≡ false
    → fragment_bytes f' x ≡ some part
    → read_message (suc fuel) f ≡ Option.map (prepend part) (read_message fuel f')
unfolding read_message
read-more fuel f e open_message bytes =
    let state = ap (λ (r : Fragmentizer × Option FragmentInfo). r.0) e in
    let fragment = ap (λ (r : Fragmentizer × Option FragmentInfo). r.1) e in
    rw (fragment, read_message, state, bytes, state, open_message, state)

read-last :
    (fuel : ℕ) (f : Fragmentizer) {f' : Fragmentizer} {x : FragmentInfo} {part : Bytes}
    → progress f ≡ (f', some x)
    → is_message_complete f' ≡ true
    → fragment_bytes f' x ≡ some part
    → read_message (suc fuel) f ≡ some (f', part ∷ [])
unfolding read_message
read-last fuel f e complete bytes =
    let state = ap (λ (r : Fragmentizer × Option FragmentInfo). r.0) e in
    let fragment = ap (λ (r : Fragmentizer × Option FragmentInfo). r.1) e in
    rw (fragment, read_message, state, bytes, state, complete, state)

module _ (fuel : ℕ) (buffer w rest : Bytes) (h : NoLf w) where
  line_bytes :
      (parser : Option Parser) (x : FragmentInfo)
      → range x ≡ (length buffer, length buffer + length w + 1)
      → fragment_bytes (reading (buffer ++ (w ++ b'\n' ∷ [])) rest parser) x
        ≡ some (w ++ b'\n' ∷ [])
  line_bytes parser x e =
      let size : length buffer + length w + 1 ≡ length buffer + length (w ++ b'\n' ∷ []) =
        omega (arith, length-append w (b'\n' ∷ [])) in
      fragment_bytes-last buffer (w ++ b'\n' ∷ []) rest parser x (rw size at e)

  -- The state behind a line that announces a literal, and behind one that does not.
  behind_announcing :
      (a : LiteralAnnouncement)
      → (line_facts (scan other w)).0 ≡ some a
      → reading (buffer ++ (w ++ b'\n' ∷ [])) rest (
          parser_after (
            line
              (length buffer)
              (length buffer + length w + 1)
              (line_facts (scan other w)).0
              (line_facts (scan other w)).1))
        ≡ at_literal a.length (buffer ++ (w ++ b'\n' ∷ [])) rest
  unfolding parser_after LiteralParser.new
  behind_announcing a e =
      let size : length buffer + length w + 1 ≡ length (buffer ++ (w ++ b'\n' ∷ [])) =
        omega (arith, length-append buffer (w ++ b'\n' ∷ []), length-append w (b'\n' ∷ [])) in
      rw (e, size)

  behind_closing :
      (line_facts (scan other w)).0 ≡ none
      → parser_after (
          line
            (length buffer)
            (length buffer + length w + 1)
            (line_facts (scan other w)).0
            (line_facts (scan other w)).1)
        ≡ none
  unfolding parser_after
  behind_closing e = rw e

  -- A line that announces a literal.
  pub read-announcing :
      (a : LiteralAnnouncement)
      → (line_facts (scan other w)).0 ≡ some a
      → read_message (suc fuel) (at_line buffer (w ++ b'\n' ∷ rest))
        ≡ Option.map
            (prepend (w ++ b'\n' ∷ []))
            (read_message fuel (at_literal a.length (buffer ++ (w ++ b'\n' ∷ [])) rest))
  unfolding is_message_complete
  read-announcing a e =
      let facts = line_facts (scan other w) in
      let x = line (length buffer) (length buffer + length w + 1) facts.0 facts.1 in
      let state = behind_announcing a e in
      read-more fuel (at_line buffer (w ++ b'\n' ∷ rest))
        (progress-line buffer w rest h ∙ ap (λ (f : Fragmentizer). (f, some x)) state) refl
        (line_bytes _ x (unfold range in refl))

  -- A line that does not.
  pub read-closing :
      (line_facts (scan other w)).0 ≡ none
      → read_message (suc fuel) (at_line buffer (w ++ b'\n' ∷ rest))
        ≡ some (reading (buffer ++ (w ++ b'\n' ∷ [])) rest none, (w ++ b'\n' ∷ []) ∷ [])
  unfolding is_message_complete
  read-closing e =
      let facts = line_facts (scan other w) in
      let x = line (length buffer) (length buffer + length w + 1) facts.0 facts.1 in
      read-last fuel (at_line buffer (w ++ b'\n' ∷ rest))
        (progress-line buffer w rest h
          ∙ ap (λ (p : Option Parser). (reading (buffer ++ (w ++ b'\n' ∷ [])) rest p, some x))
              (behind_closing e))
        refl (line_bytes none x (unfold range in refl))

behind_literal :
    (buffer data_bytes rest : Bytes)
    → reading
        (buffer ++ data_bytes)
        rest
        (parser_after (literal (length buffer) (length buffer + length data_bytes)))
      ≡ at_line (buffer ++ data_bytes) rest
unfolding parser_after LineParser.new
behind_literal buffer data_bytes rest =
    let size : length buffer + length data_bytes ≡ length (buffer ++ data_bytes) =
      omega (arith, length-append buffer data_bytes) in
    rw size

pub read-literal :
    (fuel : ℕ) (buffer data_bytes rest : Bytes)
    → read_message (suc fuel) (at_literal (length data_bytes) buffer (data_bytes ++ rest))
      ≡ Option.map (prepend data_bytes) (read_message fuel (at_line (buffer ++ data_bytes) rest))
unfolding is_message_complete
read-literal fuel buffer data_bytes rest =
    let x = literal (length buffer) (length buffer + length data_bytes) in
    read-more fuel (at_literal (length data_bytes) buffer (data_bytes ++ rest))
      (progress-literal buffer data_bytes rest
        ∙ ap (λ (f : Fragmentizer). (f, some x)) (behind_literal buffer data_bytes rest))
      refl (fragment_bytes-last buffer data_bytes rest _ x (unfold range in refl))
