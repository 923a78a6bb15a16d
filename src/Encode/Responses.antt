-- ===== src/Encode/Responses.antt =====
-- Responses (imap-types/src/response.rs) as imap-codec/src/codec/encode.rs writes them.
pub mod Delivery
pub mod Ambiguity
use imap_codec.Prelude.{ℕ, List, [], ◌∷◌, ◌++◌, Bytes, Option, none, some, codes}
use imap_codec.Core.Tag.{Tag}
use imap_codec.Core.Text.{Text}
use imap_codec.Encode.Context.{Fragment, new, into_items}
use imap_codec.Encode.Values.{
  encode_tag, encode_text, encode_astring, encode_mailbox, encode_nstring, join_serializable,
}
use imap_codec.Encode.Writer.{Writer, ◌>>◌, write, if_some, for_each, encode_number}
use imap_codec.Encode.Items.{encode_flag, encode_enable, encode_quota_get, encode_section}
use imap_codec.Encode.Codes.{
  encode_flag_fetch, encode_name_attribute, encode_delimiter, encode_status_item, encode_nstring8,
  encode_capability, encode_code,
}
use imap_codec.Encode.Bodies.{encode_envelope, encode_body_structure}
use imap_codec.Encode.Threads.{encode_thread}
use imap_codec.Encode.Command.{encode_date_time}
use imap_codec.Message.Auth.{AuthenticateData, continue, cancel}
use imap_codec.Message.Extensions.{Thread}
use imap_codec.Message.Packages.{Packages}
use imap_codec.Message.Response.{
  Code, Greeting, GreetingKind, ok_greeting, pre_auth, StatusKind, ok_status, no_status, bad_status,
  Status, untagged, tagged, MessageDataItem, Data, CommandContinuationRequest, basic, base64,
  Response, command_continuation_request, data_response,
}

unfoldable pub encode_greeting_kind : GreetingKind → Writer
unfolding write
encode_greeting_kind ok_greeting = write (codes "OK")
encode_greeting_kind pre_auth = write (codes "PREAUTH")
encode_greeting_kind GreetingKind.bye = write (codes "BYE")

-- `[code] `
unfoldable pub encode_bracketed : Code → Writer
unfolding ◌>>◌ write encode_code
encode_bracketed code = do write (codes "["); encode_code code; write (codes "] ")

unfoldable pub encode_greeting : Greeting → Writer
unfolding ◌>>◌ write if_some encode_greeting_kind encode_bracketed encode_text
encode_greeting greeting = do
  write (codes "* ")
  encode_greeting_kind greeting.kind
  write (codes " ")
  if_some greeting.code encode_bracketed
  encode_text greeting.text
  write (codes "\r\n")

-- The tag of a status response, or `*`.
unfoldable pub encode_status_tag : Option Tag → Writer
unfolding write encode_tag
encode_status_tag (some tag) = encode_tag tag
encode_status_tag none = write (codes "*")

unfoldable pub format_status : Option Tag → Bytes → Option Code → Text → Writer
unfolding ◌>>◌ write if_some encode_status_tag encode_bracketed encode_text
format_status tag status code comment = do
  encode_status_tag tag
  write (codes " ")
  write status
  write (codes " ")
  if_some code encode_bracketed
  encode_text comment
  write (codes "\r\n")

abbrev pub status_name : StatusKind → Bytes
status_name ok_status = codes "OK"
status_name no_status = codes "NO"
status_name bad_status = codes "BAD"

unfoldable pub encode_status : Status → Writer
unfolding format_status
encode_status (untagged body) = format_status none (status_name body.kind) body.code body.text
encode_status (tagged tag body) =
    format_status (some tag) (status_name body.kind) body.code body.text
encode_status (Status.bye code text) = format_status none (codes "BYE") code text

-- The numbers of a SEARCH or SORT response.
unfoldable pub encode_seqs : Bytes → List ℕ → Writer
unfolding ◌>>◌ write encode_number join_serializable
encode_seqs name [] = write name
encode_seqs name (seq ∷ seqs) = do
  write (name ++ codes " ")
  join_serializable encode_number (seq ∷ seqs) (codes " ")

unfoldable pub encode_threads : List Thread → Writer
unfolding ◌>>◌ write for_each encode_thread
encode_threads [] = write (codes "* THREAD")
encode_threads (thread ∷ threads) = do
  write (codes "* THREAD ")
  for_each (thread ∷ threads) encode_thread

-- `<{origin}>`
unfoldable pub encode_origin : ℕ → Writer
unfolding ◌>>◌ write encode_number
encode_origin origin = do write (codes "<"); encode_number origin; write (codes ">")

module _ {NaiveDate DateTime : Type 0} (packages : Packages NaiveDate DateTime) where
  unfoldable pub encode_item : MessageDataItem DateTime → Writer
  unfolding ◌>>◌ write if_some encode_number encode_section encode_origin encode_nstring
      encode_nstring8 encode_body_structure encode_envelope encode_flag_fetch encode_date_time
      join_serializable
  encode_item (MessageDataItem.body body) = do write (codes "BODY "); encode_body_structure body
  encode_item (MessageDataItem.body_ext part_section origin content) = do
    write (codes "BODY[")
    if_some part_section encode_section
    write (codes "]")
    if_some origin encode_origin
    write (codes " ")
    encode_nstring content
  encode_item (MessageDataItem.body_structure body) = do
    write (codes "BODYSTRUCTURE ")
    encode_body_structure body
  encode_item (MessageDataItem.envelope envelope) = do
    write (codes "ENVELOPE ")
    encode_envelope envelope
  encode_item (MessageDataItem.flags flags) = do
    write (codes "FLAGS (")
    join_serializable encode_flag_fetch flags (codes " ")
    write (codes ")")
  encode_item (MessageDataItem.internal_date datetime) = do
    write (codes "INTERNALDATE ")
    encode_date_time packages datetime
  encode_item (MessageDataItem.rfc822 nstring) = do write (codes "RFC822 "); encode_nstring nstring
  encode_item (MessageDataItem.rfc822_header nstring) = do
    write (codes "RFC822.HEADER ")
    encode_nstring nstring
  encode_item (MessageDataItem.rfc822_size size) = do
    write (codes "RFC822.SIZE ")
    encode_number size
  encode_item (MessageDataItem.rfc822_text nstring) = do
    write (codes "RFC822.TEXT ")
    encode_nstring nstring
  encode_item (MessageDataItem.uid uid) = do write (codes "UID "); encode_number uid
  encode_item (MessageDataItem.binary numbers value) = do
    write (codes "BINARY[")
    join_serializable encode_number numbers (codes ".")
    write (codes "] ")
    encode_nstring8 value
  encode_item (MessageDataItem.binary_size numbers size) = do
    write (codes "BINARY.SIZE[")
    join_serializable encode_number numbers (codes ".")
    write (codes "] ")
    encode_number size

  -- The arms of the `match`.
  unfoldable pub encode_data_items : Data DateTime → Writer
  unfolding ◌>>◌ write for_each encode_number encode_capability encode_name_attribute
      encode_delimiter encode_mailbox encode_status_item encode_seqs encode_threads encode_flag
      encode_item encode_enable encode_astring encode_quota_get join_serializable
  encode_data_items (Data.capability caps) = do
    write (codes "* CAPABILITY ")
    join_serializable encode_capability caps.inner (codes " ")
  encode_data_items (Data.list items delimiter mailbox) = do
    write (codes "* LIST (")
    join_serializable encode_name_attribute items (codes " ")
    write (codes ") ")
    encode_delimiter delimiter
    write (codes " ")
    encode_mailbox mailbox
  encode_data_items (Data.lsub items delimiter mailbox) = do
    write (codes "* LSUB (")
    join_serializable encode_name_attribute items (codes " ")
    write (codes ") ")
    encode_delimiter delimiter
    write (codes " ")
    encode_mailbox mailbox
  encode_data_items (Data.status mailbox items) = do
    write (codes "* STATUS ")
    encode_mailbox mailbox
    write (codes " (")
    join_serializable encode_status_item items (codes " ")
    write (codes ")")
  encode_data_items (Data.search seqs) = encode_seqs (codes "* SEARCH") seqs
  encode_data_items (Data.sort seqs) = encode_seqs (codes "* SORT") seqs
  encode_data_items (Data.thread threads) = encode_threads threads
  encode_data_items (Data.flags flags) = do
    write (codes "* FLAGS (")
    join_serializable encode_flag flags (codes " ")
    write (codes ")")
  encode_data_items (Data.exists count) = do
    write (codes "* ")
    encode_number count
    write (codes " EXISTS")
  encode_data_items (Data.recent count) = do
    write (codes "* ")
    encode_number count
    write (codes " RECENT")
  encode_data_items (Data.expunge count) = do
    write (codes "* ")
    encode_number count
    write (codes " EXPUNGE")
  encode_data_items (Data.fetch seq items) = do
    write (codes "* ")
    encode_number seq
    write (codes " FETCH (")
    join_serializable encode_item items.inner (codes " ")
    write (codes ")")
  encode_data_items (Data.enabled capabilities) = do
    write (codes "* ENABLED")
    for_each capabilities (λ c. write (codes " ") >> encode_enable c)
  encode_data_items (Data.quota root quotas) = do
    write (codes "* QUOTA ")
    encode_astring root
    write (codes " (")
    join_serializable encode_quota_get quotas.inner (codes " ")
    write (codes ")")
  encode_data_items (Data.quota_root mailbox roots) = do
    write (codes "* QUOTAROOT ")
    encode_mailbox mailbox
    for_each roots (λ root. write (codes " ") >> encode_astring root)

  unfoldable pub encode_data : Data DateTime → Writer
  unfolding ◌>>◌ write encode_data_items
  encode_data items = do encode_data_items items; write (codes "\r\n")

  unfoldable pub encode_continuation : CommandContinuationRequest → Writer
  unfolding ◌>>◌ write encode_code encode_text
  encode_continuation (basic (some code) text) = do
    write (codes "+ [")
    encode_code code
    write (codes "] ")
    encode_text text
    write (codes "\r\n")
  encode_continuation (basic none text) = do
    write (codes "+ ")
    encode_text text
    write (codes "\r\n")
  encode_continuation (base64 data_bytes) = do
    write (codes "+ ")
    write (packages.base64_encode data_bytes)
    write (codes "\r\n")

  unfoldable pub encode_response : Response DateTime → Writer
  unfolding encode_status encode_data encode_continuation
  encode_response (Response.status status) = encode_status status
  encode_response (data_response items) = encode_data items
  encode_response (command_continuation_request request) = encode_continuation request

  unfoldable pub encode_authenticate_data : AuthenticateData → Writer
  unfolding ◌>>◌ write
  encode_authenticate_data (continue data_bytes) = do
    write (packages.base64_encode data_bytes)
    write (codes "\r\n")
  encode_authenticate_data cancel = write (codes "*\r\n")

  -- `ResponseCodec::encode`
  unfoldable pub encode : Response DateTime → List Fragment
  unfolding encode_response new into_items
  encode message = into_items (encode_response message new)

  -- `AuthenticateDataCodec::encode`
  unfoldable pub authenticate_data_codec_encode : AuthenticateData → List Fragment
  unfolding encode_authenticate_data new into_items
  authenticate_data_codec_encode message = into_items (encode_authenticate_data message new)

-- `GreetingCodec::encode`
unfoldable pub greeting_codec_encode : Greeting → List Fragment
unfolding encode_greeting new into_items
greeting_codec_encode message = into_items (encode_greeting message new)

-- `IdleDoneCodec::encode`
unfoldable pub idle_done_codec_encode : List Fragment
unfolding write new into_items
idle_done_codec_encode = into_items (write (codes "DONE\r\n") new)
