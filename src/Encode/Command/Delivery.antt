-- ===== src/Encode/Command/Delivery.antt =====
-- A command between the encoder (imap-codec/src/codec/encode.rs) and the fragmentizer
-- (imap-codec/src/fragmentizer.rs).
use imap_codec.Encode.Sends.Commands.{IsEncodableBody, Sends-command_body}
use imap_codec.Prelude.{
  ◌≡◌, refl, true, none, some, [], ◌∷◌, ◌++◌, map, Bytes, codes, length, All, arith,
}
use imap_codec.Core.Tag.{is_tag_char}
use imap_codec.Indicators.{is_astring_char}
use imap_codec.Fragmentizer.State.{enqueue_bytes, without_max_message_size}
use imap_codec.Encode.Context.{fragment_data, dump}
use imap_codec.Encode.Values.{encode_tag}
use imap_codec.Encode.Reading.{read_message, reading}
use imap_codec.Encode.Settled.{Settled, Settled-astring}
use imap_codec.Encode.Writer.{write}
use imap_codec.Encode.Sends.{Sends-plain, Sends-Settled}
use imap_codec.Encode.Sends.Sets.{IsPlain}
use imap_codec.Encode.Sends.Message.{Finishes->>, Finishes-crlf, read_message-Finishes}
use imap_codec.Encode.Command
use imap_codec.Encode.Command.{
  encode_append_flags, encode_search_charset, encode_store_type, encode_store_response,
  encode_date_time, encode_append_date, encode_initial_response, encode_command_body,
  encode_command,
}
use imap_codec.Message.Command.{Command}
use imap_codec.Message.Packages.{Packages}

abbrev pub IsEncodableCommand : {NaiveDate DateTime : Type 0} → Command NaiveDate DateTime → Type 0
IsEncodableCommand command =
    All (λ b. is_tag_char b ≡ true) command.tag.inner × IsEncodableBody command.body

tag_astring :
    (tag : Bytes) → All (λ b. is_tag_char b ≡ true) tag → All (λ b. is_astring_char b ≡ true) tag
unfolding is_tag_char
tag_astring [] h = tt
tag_astring (b ∷ tag) (hb, h) = ((ground arith), tag_astring tag h)

pub Settled-tag : (tag : Bytes) → All (λ b. is_tag_char b ≡ true) tag → Settled tag
Settled-tag tag h = Settled-astring tag (tag_astring tag h)

-- A command that is encoded on one side is taken apart in the same way on the other: if tag,
-- strings, mailboxes, patterns, charsets and the atoms in names have the bytes that their types
-- allow, literals have a length of 32 bits, and the formatted dates and base64 texts of the other
-- packages have no line end and no opening brace, reading one message from the dumped fragments and
-- any bytes behind them takes as many fragments as the encoder made, yields the data of each one,
-- and ends with the whole command in the buffer and the bytes behind it unparsed.
pub read_message-command :
    {NaiveDate DateTime : Type 0} (packages : Packages NaiveDate DateTime)
    (command : Command NaiveDate DateTime) (rest : Bytes)
    → IsPlain packages
    → IsEncodableCommand command
    → let items = Command.encode packages command in
      read_message (length items) (enqueue_bytes without_max_message_size (dump items ++ rest))
      ≡ some (reading (dump items) rest none, map fragment_data items)
unfolding Command.encode encode_command encode_tag write
read_message-command packages command rest plain (tag, body) = read_message-Finishes rest (
    Finishes->> (Sends-Settled command.tag.inner (Settled-tag command.tag.inner tag)) (
      Finishes->> (Sends-plain (codes " ") refl)
        (Finishes->> (Sends-command_body packages plain command.body body) Finishes-crlf)))
