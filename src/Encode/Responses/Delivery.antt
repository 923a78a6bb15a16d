-- ===== src/Encode/Responses/Delivery.antt =====
-- A greeting or response between the encoder (imap-codec/src/codec/encode.rs) and the fragmentizer
-- (imap-codec/src/fragmentizer.rs) of a client.
use imap_codec.Encode.Sends.Data.{IsEncodableData, Sends-data_items}
use imap_codec.Encode.Sends.Statuses.{
  IsEncodableText, IsEncodableGreeting, IsEncodableStatus, Finishes-greeting, Finishes-status,
}
use imap_codec.Prelude.{◌≡◌, refl, ◌++◌, map, Bytes, none, some, codes, length}
use imap_codec.Fragmentizer.State.{enqueue_bytes, without_max_message_size}
use imap_codec.Encode.Context.{fragment_data, dump}
use imap_codec.Encode.Reading.{read_message, reading}
use imap_codec.Encode.Values.{encode_text}
use imap_codec.Encode.Writer.{write}
use imap_codec.Encode.Sends.{Sends-plain}
use imap_codec.Encode.Sends.Sets.{IsPlain}
use imap_codec.Encode.Sends.Codes.{Sends-code}
use imap_codec.Encode.Sends.Message.{
  Finishes, Finishes->>, Finishes-crlf, Finishes-text, read_message-Finishes,
}
use imap_codec.Encode.Responses
use imap_codec.Encode.Responses.{
  encode_greeting_kind, encode_bracketed, encode_greeting, encode_status_tag, format_status,
  status_name, encode_status, encode_seqs, encode_threads, encode_origin, encode_item,
  encode_data_items, encode_data, encode_continuation, encode_response,
}
use imap_codec.Message.Packages.{Packages}
use imap_codec.Message.Response.{
  Greeting, CommandContinuationRequest, basic, base64, Response, command_continuation_request,
  data_response,
}

abbrev pub IsEncodableContinuation : CommandContinuationRequest → Type 0
IsEncodableContinuation (basic code text) = IsEncodableText code text
IsEncodableContinuation (base64 data_bytes) = Unit

abbrev pub IsEncodableResponse : {DateTime : Type 0} → Response DateTime → Type 0
IsEncodableResponse (Response.status status) = IsEncodableStatus status
IsEncodableResponse (data_response items) = IsEncodableData items
IsEncodableResponse (command_continuation_request request) = IsEncodableContinuation request

module _ {NaiveDate DateTime : Type 0} (packages : Packages NaiveDate DateTime)
    (plain : IsPlain packages) where
  Finishes-continuation :
      (r : CommandContinuationRequest)
      → IsEncodableContinuation r
      → Finishes (encode_continuation packages r)
  unfolding encode_continuation encode_text write
  Finishes-continuation (basic none text) (hc, ht) =
      Finishes->> (Sends-plain (codes "+ ") refl) (Finishes-text text.inner ht)
  Finishes-continuation (basic (some code) text) (hc, ht) =
      Finishes->> (Sends-plain (codes "+ [") refl) (
        Finishes->> (Sends-code code hc)
          (Finishes->> (Sends-plain (codes "] ") refl) (Finishes-text text.inner ht)))
  Finishes-continuation (base64 data_bytes) h = Finishes->> (Sends-plain (codes "+ ") refl) (
      Finishes->> (Sends-plain (packages.base64_encode data_bytes) (plain.base64_plain data_bytes))
        Finishes-crlf)

  Finishes-response :
      (r : Response DateTime) → IsEncodableResponse r → Finishes (encode_response packages r)
  unfolding encode_response encode_data
  Finishes-response (Response.status status) h = Finishes-status status h
  Finishes-response (data_response items) h =
      Finishes->> (Sends-data_items packages plain items h) Finishes-crlf
  Finishes-response (command_continuation_request request) h = Finishes-continuation request h

-- A response that is encoded on one side is taken apart in the same way on the other: if the values
-- in it are those that their types allow, literals have a length of 32 bits, the text does not look
-- like the announcement of a literal, an unknown code has no line end and no opening brace, nor have
-- the dates and base64 texts of the other packages, reading one message from the dumped fragments
-- and any bytes behind them takes as many fragments as the encoder made, yields the data of each
-- one, and ends with the whole response in the buffer and the bytes behind it unparsed.
pub read_message-response :
    {NaiveDate DateTime : Type 0} (packages : Packages NaiveDate DateTime)
    (response : Response DateTime) (rest : Bytes)
    → IsPlain packages
    → IsEncodableResponse response
    → let items = Responses.encode packages response in
      read_message (length items) (enqueue_bytes without_max_message_size (dump items ++ rest))
      ≡ some (reading (dump items) rest none, map fragment_data items)
unfolding Responses.encode
read_message-response packages response rest plain h =
    read_message-Finishes rest (Finishes-response packages plain response h)

-- A greeting is one line to the fragmentizer of a client, whatever bytes follow: if the values in
-- its code are those that their types allow and its text does not look like the announcement of a
-- literal, reading one message takes the encoded greeting apart into the fragments that it was
-- encoded to.
pub read_message-greeting :
    (greeting : Greeting) (rest : Bytes)
    → IsEncodableGreeting greeting
    → let items = Responses.greeting_codec_encode greeting in
      read_message (length items) (enqueue_bytes without_max_message_size (dump items ++ rest))
      ≡ some (reading (dump items) rest none, map fragment_data items)
unfolding Responses.greeting_codec_encode
read_message-greeting greeting rest h = read_message-Finishes rest (Finishes-greeting greeting h)
