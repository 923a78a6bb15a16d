-- ===== src/Encode/Sends/Message.antt =====
-- Whole messages (imap-codec/src/codec/encode.rs) on their way through the fragmentizer
-- (imap-codec/src/fragmentizer.rs).
use imap_codec.Prelude.{
  ◌≡◌, ◌≢◌, ◌∙◌, refl, sym, ap, none, some, List, [], ◌∷◌, ◌++◌, map, append_assoc, Bytes, codes,
  length, All, All-append,
}
use imap_codec.Fragmentizer.Fragment.{LiteralAnnouncement}
use imap_codec.Fragmentizer.LineParser.{other, line_facts}
use imap_codec.Fragmentizer.LineParser.Scan.{NoLf, scan, scan-append}
use imap_codec.Fragmentizer.LineParser.Grammar.{LineAnnounces}
use imap_codec.Fragmentizer.LineParser.Announce.{announces_iff}
use imap_codec.Fragmentizer.State.{enqueue_bytes, without_max_message_size}
use imap_codec.Encode.Context.{EncodeContext, new, write_all, into_items, fragment_data, dump}
use imap_codec.Encode.Writes
use imap_codec.Encode.Writes.{Write, text_write, literal_write, write_to, write_each}
use imap_codec.Encode.Reading.{read_message, reading}
use imap_codec.Encode.Delivery.{Sendable, read_message-encode}
use imap_codec.Encode.Settled.{Settled, Settled-append, Settled-nil, Settled-not_LineAnnounces}
use imap_codec.Encode.Strings.{IsSettledWrite}
use imap_codec.Encode.Writer.{Writer, ◌>>◌, write}
use imap_codec.Encode.Sends.{Sends, write_each-append}

-- The end of a message, with its `\r\n`: behind a settled text it can be sent.
pub record Finishes (writer : Writer) : Type 0 where
  pub writes : List Write
  pub encodes :
      (ctx : EncodeContext) → writer ctx ≡ write_all (write_each writes ctx) (codes "\r\n")
  pub sendable : (open_line : Bytes) → Settled open_line → Sendable open_line writes

pub Finishes-crlf : Finishes (write (codes "\r\n"))
unfolding write write_each
Finishes-crlf = record {
  writes = [];
  encodes = λ ctx. refl;
  sendable = λ open_line h. (h.one_line, Settled-not_LineAnnounces open_line h);
}

-- The last text of a line may hold brackets, if it does not announce a literal.
pub record IsQuiet (text : Bytes) : Type 0 where
  pub one_line : NoLf text
  pub announces_nothing : (a : LiteralAnnouncement) → ¬ (LineAnnounces (text ++ codes "\r") a)

scan-Settled :
    (open_line text : Bytes) → Settled open_line → scan other (open_line ++ text) ≡ scan other text
scan-Settled open_line text h = rw (scan-append, h.state)

quiet_behind :
    (open_line text : Bytes)
    → Settled open_line
    → IsQuiet text
    → (a : LiteralAnnouncement) → ¬ (LineAnnounces ((open_line ++ text) ++ codes "\r") a)
quiet_behind open_line text h quiet a announces =
    let facts = (announces_iff ((open_line ++ text) ++ codes "\r") a).1 announces in
    let line : (open_line ++ text) ++ codes "\r" ≡ open_line ++ (text ++ codes "\r") =
      append_assoc open_line text (codes "\r") in
    let same =
      ap (λ (w : Bytes). (line_facts (scan other w)).0) line
      ∙ ap (λ s. (line_facts s).0) (scan-Settled open_line (text ++ codes "\r") h) in
    quiet.announces_nothing a ((announces_iff (text ++ codes "\r") a).0 (sym same ∙ facts))

pub Finishes-text : (text : Bytes) → IsQuiet text → Finishes (write text >> write (codes "\r\n"))
unfolding ◌>>◌ write write_each write_to
Finishes-text text h = record {
  writes = text_write text ∷ [];
  encodes = λ ctx. refl;
  sendable = λ open_line s. (
    All-append (λ b. b ≢ b'\n') open_line text s.one_line h.one_line,
    quiet_behind open_line text s h,
  );
}

Sendable-append :
    (open_line : Bytes) (ws ws' : List Write)
    → Settled open_line
    → All IsSettledWrite ws
    → ((open_line' : Bytes) → Settled open_line' → Sendable open_line' ws')
    → Sendable open_line (ws ++ ws')
Sendable-append open_line [] ws' h hs rest = rest open_line h
Sendable-append open_line (text_write text ∷ ws) ws' h (s, hs) rest =
    Sendable-append (open_line ++ text) ws ws' (Settled-append open_line text h s) hs rest
Sendable-append open_line (literal_write l ∷ ws) ws' h (size, hs) rest =
    (h.one_line, size, Sendable-append [] ws ws' Settled-nil hs rest)

pub Finishes->> :
    {first second : Writer} → Sends first → Finishes second → Finishes (first >> second)
unfolding ◌>>◌
Finishes->> {first} {second} s f = record {
  writes = s.writes ++ f.writes;
  encodes = λ ctx.
      ap second (s.encodes ctx)
      ∙ f.encodes (write_each s.writes ctx)
      ∙ ap (λ (c : EncodeContext). write_all c (codes "\r\n"))
          (sym (write_each-append s.writes f.writes ctx));
  sendable = λ open_line h. Sendable-append open_line s.writes f.writes h s.settled f.sendable;
}

-- Reading one message from the dumped fragments and any bytes behind them.
pub read_message-Finishes :
    {writer : Writer} (rest : Bytes)
    → Finishes writer
    → let items = into_items (writer new) in
      read_message (length items) (enqueue_bytes without_max_message_size (dump items ++ rest))
      ≡ some (reading (dump items) rest none, map fragment_data items)
read_message-Finishes {writer} rest f =
    let encoded : into_items (writer new) ≡ Writes.encode f.writes =
      unfold Writes.encode in ap into_items (f.encodes new) in
    rw encoded (read_message-encode f.writes rest (f.sendable [] Settled-nil))
