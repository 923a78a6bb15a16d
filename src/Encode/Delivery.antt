-- ===== src/Encode/Delivery.antt =====
-- Between the encoder (imap-codec/src/codec/encode.rs) and the fragmentizer
-- (imap-codec/src/fragmentizer.rs): a message of texts and literals on its way.
use mathlib.Core.Option
use imap_codec.Prelude.{
  ℕ, suc, ◌≤◌, ◌≡◌, ◌≢◌, ◌∙◌, refl, sym, ap, Option, none, some, List, [], ◌∷◌, ◌++◌, map,
  append_assoc, append-nil, Bytes, codes, length, All, All-append, arith, Option-cases, inl, inr,
}
use imap_codec.Core.Literal.{LiteralMode, Literal, sync, non_sync}
use imap_codec.Fragmentizer.Fragment.{LiteralAnnouncement}
use imap_codec.Fragmentizer.LineParser
use imap_codec.Fragmentizer.LineParser.{other, line_facts, u32_max}
use imap_codec.Fragmentizer.LineParser.Scan.{NoLf, scan}
use imap_codec.Fragmentizer.LineParser.Grammar.{IsDigit, LineAnnounces, announcement_bytes}
use imap_codec.Fragmentizer.LineParser.Announce.{announces_iff}
use imap_codec.Fragmentizer.State.{
  Fragmentizer, enqueue_bytes, without_max_message_size, with_limit, first_parser,
}
use imap_codec.Encode.Context.{fragment_data, dump}
use imap_codec.Encode.Decimal.{display, display-Spells}
use imap_codec.Encode.Values.{announcement}
use imap_codec.Encode.Writes.{
  Write, text_write, literal_write, encode, fragments_of, encode-fragments_of,
}
use imap_codec.Encode.Reading.{read_message, prepend, reading, at_line}
use imap_codec.Encode.Rounds.{read-announcing, read-closing, read-literal}

-- What can be sent: no line end in a text, a literal's length is a number of 32 bits, and the last
-- line does not look like the announcement of a literal. The text of the current line comes first.
abbrev pub Sendable : Bytes → List Write → Type 0
Sendable open_line [] =
    NoLf open_line × ((a : LiteralAnnouncement) → ¬ (LineAnnounces (open_line ++ codes "\r") a))
Sendable open_line (text_write text ∷ writes) = Sendable (open_line ++ text) writes
Sendable open_line (literal_write l ∷ writes) =
    NoLf open_line × (length l.data_bytes ≤ u32_max) × Sendable [] writes

-- A literal's announcement without its `\n`.
abbrev announced : LiteralMode → Bytes → Bytes
announced mode data_bytes = announcement_bytes mode (display (length data_bytes)) ++ codes "\r"

announcement-announced :
    (mode : LiteralMode) (data_bytes : Bytes)
    → announcement mode data_bytes ≡ announced mode data_bytes ++ codes "\n"
unfolding announcement
announcement-announced sync data_bytes = rw (append_assoc, append_assoc)
announcement-announced non_sync data_bytes = rw (append_assoc, append_assoc)

IsDigit-NoLf : (ds : Bytes) → All IsDigit ds → NoLf ds
IsDigit-NoLf [] h = tt
IsDigit-NoLf (d ∷ ds) (h, hs) = ((λ e. absurd (omega arith)), IsDigit-NoLf ds hs)

announced-NoLf :
    (mode : LiteralMode) (data_bytes : Bytes)
    → length data_bytes ≤ u32_max
    → NoLf (announced mode data_bytes)
announced-NoLf sync data_bytes h =
    let ds = display (length data_bytes) in
    let number = IsDigit-NoLf ds (display-Spells (length data_bytes) h).digits in
    let bracket = All-append (λ b. b ≢ b'\n') ds (codes "}") number (omega arith) in
    All-append (λ b. b ≢ b'\n') (announcement_bytes sync ds) (codes "\r") ((omega arith), bracket)
      (omega arith)
announced-NoLf non_sync data_bytes h =
    let ds = display (length data_bytes) in
    let number = IsDigit-NoLf ds (display-Spells (length data_bytes) h).digits in
    let bracket = All-append (λ b. b ≢ b'\n') ds (codes "+}") number (omega arith) in
    All-append (λ b. b ≢ b'\n') (announcement_bytes non_sync ds) (codes "\r")
      ((omega arith), bracket) (omega arith)

announced-announces :
    (open_line : Bytes) (mode : LiteralMode) (data_bytes : Bytes)
    → length data_bytes ≤ u32_max
    → (line_facts (scan other (open_line ++ announced mode data_bytes))).0
      ≡ some (record { mode = mode; length = length data_bytes })
announced-announces open_line mode data_bytes h =
    let size = length data_bytes in
    (announces_iff (open_line ++ announced mode data_bytes)
        (record { mode = mode; length = size })).1
      (inr (
        open_line ++ announcement_bytes mode (display size),
        rw append_assoc,
        record {
          before = open_line;
          ds = display size;
          number = display-Spells size h;
          spelled = refl;
        },
      ))

-- A line that announces nothing is the last one of its message.
announces_nothing :
    (w : Bytes)
    → ((a : LiteralAnnouncement) → ¬ (LineAnnounces w a))
    → (line_facts (scan other w)).0 ≡ none
announces_nothing w h = elim (Option-cases (line_facts (scan other w)).0) [
  | inl e ↦ e
  | inr (a, e) ↦ absurd (h a ((announces_iff w a).0 e))
]

-- What a round on an announcing line and on its literal leaves to do.
read-pair :
    (fuel : ℕ) (open_line buffer rest : Bytes) (l : Literal)
    → NoLf open_line
    → length l.data_bytes ≤ u32_max
    → let first = open_line ++ announcement l.mode l.data_bytes in
      read_message (suc (suc fuel)) (at_line buffer (first ++ (l.data_bytes ++ rest)))
      ≡ Option.map (prepend first) (
          Option.map
            (prepend l.data_bytes)
            (read_message fuel (at_line ((buffer ++ first) ++ l.data_bytes) rest)))
read-pair fuel open_line buffer rest l h size =
    let w = open_line ++ announced l.mode l.data_bytes in
    let clean =
      All-append (λ b. b ≢ b'\n') open_line (announced l.mode l.data_bytes) h
        (announced-NoLf l.mode l.data_bytes size) in
    let first : w ++ b'\n' ∷ [] ≡ open_line ++ announcement l.mode l.data_bytes =
      append_assoc open_line (announced l.mode l.data_bytes) (codes "\n")
      ∙ ap (λ (t : Bytes). open_line ++ t) (sym (announcement-announced l.mode l.data_bytes)) in
    let whole : w ++ b'\n' ∷ (l.data_bytes ++ rest) ≡ (w ++ b'\n' ∷ []) ++ (l.data_bytes ++ rest) =
      sym (append_assoc w (codes "\n") (l.data_bytes ++ rest)) in
    rw (← first, ← whole)
      (read-announcing (suc fuel) buffer w (l.data_bytes ++ rest) clean
          (record { mode = l.mode; length = length l.data_bytes })
          (announced-announces open_line l.mode l.data_bytes size)
        ∙ ap (Option.map (prepend (w ++ b'\n' ∷ [])))
            (read-literal fuel (buffer ++ (w ++ b'\n' ∷ [])) l.data_bytes rest))

read-fragments_of :
    (writes : List Write) (open_line buffer rest : Bytes)
    → Sendable open_line writes
    → let items = fragments_of open_line writes in
      read_message (length items) (at_line buffer (dump items ++ rest))
      ≡ some (reading (buffer ++ dump items) rest none, map fragment_data items)
unfolding dump fragment_data
read-fragments_of [] open_line buffer rest (clean, nothing) =
    let w = open_line ++ codes "\r" in
    let clean_line = All-append (λ b. b ≢ b'\n') open_line (codes "\r") clean (omega arith) in
    let first : w ++ b'\n' ∷ [] ≡ open_line ++ codes "\r\n" =
      append_assoc open_line (codes "\r") (codes "\n") in
    let whole : w ++ b'\n' ∷ rest ≡ (w ++ b'\n' ∷ []) ++ rest =
      sym (append_assoc w (codes "\n") rest) in
    rw (append-nil, ← first, ← whole)
      (read-closing 0 buffer w rest clean_line (announces_nothing w nothing))
read-fragments_of (text_write text ∷ writes) open_line buffer rest s =
    read-fragments_of writes (open_line ++ text) buffer rest s
read-fragments_of (literal_write l ∷ writes) open_line buffer rest (clean, size, s) =
    let first = open_line ++ announcement l.mode l.data_bytes in
    let items = fragments_of [] writes in
    let received : (first ++ (l.data_bytes ++ dump items)) ++ rest
        ≡ first ++ (l.data_bytes ++ (dump items ++ rest)) =
      append_assoc first (l.data_bytes ++ dump items) rest
      ∙ ap (λ (u : Bytes). first ++ u) (append_assoc l.data_bytes (dump items) rest) in
    let stored : ((buffer ++ first) ++ l.data_bytes) ++ dump items
        ≡ buffer ++ (first ++ (l.data_bytes ++ dump items)) =
      append_assoc (buffer ++ first) l.data_bytes (dump items)
      ∙ append_assoc buffer first (l.data_bytes ++ dump items) in
    ap (λ (u : Bytes). read_message (suc (suc (length items))) (at_line buffer u)) received
    ∙ read-pair (length items) open_line buffer (dump items ++ rest) l clean size
    ∙ ap
        (λ (r : Option (Fragmentizer × List Bytes)).
          Option.map (prepend first) (Option.map (prepend l.data_bytes) r))
        (read-fragments_of writes [] ((buffer ++ first) ++ l.data_bytes) rest s)
    ∙ ap (λ (b : Bytes). some (reading b rest none, first ∷ l.data_bytes ∷ map fragment_data items))
        stored

-- Whatever texts and literals a message is encoded from, the fragmentizer on the other side cuts
-- its bytes into the same fragments: if no text holds a line end, the literals' lengths are numbers
-- of 32 bits, and the last line does not look like an announcement, reading one message from the
-- dumped fragments and any bytes behind them takes as many fragments as there are, yields the data
-- of each one, and ends with the whole message in the buffer and the bytes behind it unparsed.
pub read_message-encode :
    (writes : List Write) (rest : Bytes)
    → Sendable [] writes
    → let items = encode writes in
      read_message (length items) (enqueue_bytes without_max_message_size (dump items ++ rest))
      ≡ some (reading (dump items) rest none, map fragment_data items)
unfolding enqueue_bytes without_max_message_size with_limit first_parser LineParser.new
read_message-encode writes rest s =
    rw (encode-fragments_of writes) (read-fragments_of writes [] [] rest s)
