-- ===== src/Encode/Command.antt =====
-- Commands (imap-types/src/command.rs) as imap-codec/src/codec/encode.rs writes them.
pub mod Delivery
pub mod Called
use imap_codec.Prelude.{
  ℕ, Bool, true, false, List, [], ◌∷◌, ◌++◌, Bytes, Option, none, some, codes, if◌then◌else◌,
}
use imap_codec.Core.Charset.{Charset}
use imap_codec.Encode.Context.{Fragment, new, into_items}
use imap_codec.Encode.Values.{
  encode_tag, encode_astring, encode_mailbox, encode_list_mailbox, encode_charset,
  encode_sequence_set, join_serializable,
}
use imap_codec.Encode.Writer.{Writer, ◌>>◌, write, skip, if_some}
use imap_codec.Encode.Items.{
  encode_auth_mechanism, encode_flag, encode_status_name, encode_literal_or_literal8,
  encode_compression, encode_enable, encode_quota_set, encode_sort_criterion, encode_threading,
  encode_macro_or_names,
}
use imap_codec.Encode.SearchKeys.{encode_search_keys}
use imap_codec.Message.Command.{Command, CommandBody}
use imap_codec.Message.Flag.{Flag, StoreType, replace, add, remove, StoreResponse, answer, silent}
use imap_codec.Message.Packages.{Packages}

unfoldable pub encode_append_flags : List Flag → Writer
unfolding ◌>>◌ write skip join_serializable encode_flag
encode_append_flags [] = skip
encode_append_flags (flag ∷ flags) = do
  write (codes " (")
  join_serializable encode_flag (flag ∷ flags) (codes " ")
  write (codes ")")

unfoldable pub encode_search_charset : Charset → Writer
unfolding ◌>>◌ write encode_charset
encode_search_charset charset = do write (codes " CHARSET "); encode_charset charset

unfoldable pub encode_store_type : StoreType → Writer
unfolding write skip
encode_store_type add = write (codes "+")
encode_store_type remove = write (codes "-")
encode_store_type replace = skip

unfoldable pub encode_store_response : StoreResponse → Writer
unfolding write skip
encode_store_response answer = skip
encode_store_response silent = write (codes ".SILENT")

module _ {NaiveDate DateTime : Type 0} (packages : Packages NaiveDate DateTime) where
  unfoldable pub encode_date_time : DateTime → Writer
  unfolding write
  encode_date_time date = write (codes "\"" ++ (packages.format_date_time date ++ codes "\""))

  unfoldable pub encode_append_date : DateTime → Writer
  unfolding ◌>>◌ write encode_date_time
  encode_append_date date = do write (codes " "); encode_date_time date

  -- An empty initial response is a single `=`.
  unfoldable pub encode_initial_response : Bytes → Writer
  unfolding ◌>>◌ write
  encode_initial_response [] = do write (codes " "); write (codes "=")
  encode_initial_response (b ∷ ir) = do write (codes " "); write (packages.base64_encode (b ∷ ir))

  unfoldable pub encode_command_body : CommandBody NaiveDate DateTime → Writer
  unfolding ◌>>◌ write if_some encode_auth_mechanism encode_initial_response encode_astring
      encode_mailbox encode_list_mailbox encode_status_name encode_append_flags encode_append_date
      encode_literal_or_literal8 encode_sequence_set encode_search_charset encode_search_keys
      encode_sort_criterion encode_charset encode_threading encode_macro_or_names encode_store_type
      encode_store_response encode_flag encode_enable encode_compression encode_quota_set
      join_serializable
  encode_command_body CommandBody.capability = write (codes "CAPABILITY")
  encode_command_body CommandBody.noop = write (codes "NOOP")
  encode_command_body CommandBody.logout = write (codes "LOGOUT")
  encode_command_body (CommandBody.authenticate mechanism initial_response) = do
    write (codes "AUTHENTICATE ")
    encode_auth_mechanism mechanism
    if_some initial_response encode_initial_response
  encode_command_body (CommandBody.login username password) = do
    write (codes "LOGIN ")
    encode_astring username
    write (codes " ")
    encode_astring password
  encode_command_body (CommandBody.select mailbox) = do
    write (codes "SELECT ")
    encode_mailbox mailbox
  encode_command_body CommandBody.unselect = write (codes "UNSELECT")
  encode_command_body (CommandBody.examine mailbox) = do
    write (codes "EXAMINE ")
    encode_mailbox mailbox
  encode_command_body (CommandBody.create mailbox) = do
    write (codes "CREATE ")
    encode_mailbox mailbox
  encode_command_body (CommandBody.delete mailbox) = do
    write (codes "DELETE ")
    encode_mailbox mailbox
  encode_command_body (CommandBody.rename from to) = do
    write (codes "RENAME ")
    encode_mailbox from
    write (codes " ")
    encode_mailbox to
  encode_command_body (CommandBody.subscribe mailbox) = do
    write (codes "SUBSCRIBE ")
    encode_mailbox mailbox
  encode_command_body (CommandBody.unsubscribe mailbox) = do
    write (codes "UNSUBSCRIBE ")
    encode_mailbox mailbox
  encode_command_body (CommandBody.list reference mailbox_wildcard) = do
    write (codes "LIST ")
    encode_mailbox reference
    write (codes " ")
    encode_list_mailbox mailbox_wildcard
  encode_command_body (CommandBody.lsub reference mailbox_wildcard) = do
    write (codes "LSUB ")
    encode_mailbox reference
    write (codes " ")
    encode_list_mailbox mailbox_wildcard
  encode_command_body (CommandBody.status mailbox item_names) = do
    write (codes "STATUS ")
    encode_mailbox mailbox
    write (codes " (")
    join_serializable encode_status_name item_names (codes " ")
    write (codes ")")
  encode_command_body (CommandBody.append mailbox flags date message) = do
    write (codes "APPEND ")
    encode_mailbox mailbox
    encode_append_flags flags
    if_some date encode_append_date
    write (codes " ")
    encode_literal_or_literal8 message
  encode_command_body CommandBody.check = write (codes "CHECK")
  encode_command_body CommandBody.close = write (codes "CLOSE")
  encode_command_body CommandBody.expunge = write (codes "EXPUNGE")
  encode_command_body (CommandBody.expunge_uid sequence_set) = do
    write (codes "UID EXPUNGE ")
    encode_sequence_set packages.iteration_order sequence_set
  encode_command_body (CommandBody.search charset criteria uid) = do
    if uid then write (codes "UID SEARCH") else write (codes "SEARCH")
    if_some charset encode_search_charset
    write (codes " ")
    encode_search_keys packages criteria
  encode_command_body (CommandBody.sort sort_criteria charset search_criteria uid) = do
    if uid then write (codes "UID SORT (") else write (codes "SORT (")
    join_serializable encode_sort_criterion sort_criteria.inner (codes " ")
    write (codes ") ")
    encode_charset charset
    write (codes " ")
    encode_search_keys packages search_criteria
  encode_command_body (CommandBody.thread algorithm charset search_criteria uid) = do
    if uid then write (codes "UID THREAD ") else write (codes "THREAD ")
    encode_threading algorithm
    write (codes " ")
    encode_charset charset
    write (codes " ")
    encode_search_keys packages search_criteria
  encode_command_body (CommandBody.fetch sequence_set macro_or_item_names uid) = do
    if uid then write (codes "UID FETCH ") else write (codes "FETCH ")
    encode_sequence_set packages.iteration_order sequence_set
    write (codes " ")
    encode_macro_or_names macro_or_item_names
  encode_command_body (CommandBody.store sequence_set kind response flags uid) = do
    if uid then write (codes "UID STORE ") else write (codes "STORE ")
    encode_sequence_set packages.iteration_order sequence_set
    write (codes " ")
    encode_store_type kind
    write (codes "FLAGS")
    encode_store_response response
    write (codes " (")
    join_serializable encode_flag flags (codes " ")
    write (codes ")")
  encode_command_body (CommandBody.copy sequence_set mailbox uid) = do
    if uid then write (codes "UID COPY ") else write (codes "COPY ")
    encode_sequence_set packages.iteration_order sequence_set
    write (codes " ")
    encode_mailbox mailbox
  encode_command_body CommandBody.idle = write (codes "IDLE")
  encode_command_body (CommandBody.enable capabilities) = do
    write (codes "ENABLE ")
    join_serializable encode_enable capabilities.inner (codes " ")
  encode_command_body (CommandBody.compress algorithm) = do
    write (codes "COMPRESS ")
    encode_compression algorithm
  encode_command_body (CommandBody.get_quota root) = do
    write (codes "GETQUOTA ")
    encode_astring root
  encode_command_body (CommandBody.get_quota_root mailbox) = do
    write (codes "GETQUOTAROOT ")
    encode_mailbox mailbox
  encode_command_body (CommandBody.set_quota root quotas) = do
    write (codes "SETQUOTA ")
    encode_astring root
    write (codes " (")
    join_serializable encode_quota_set quotas (codes " ")
    write (codes ")")
  encode_command_body (CommandBody.move sequence_set mailbox uid) = do
    if uid then write (codes "UID MOVE ") else write (codes "MOVE ")
    encode_sequence_set packages.iteration_order sequence_set
    write (codes " ")
    encode_mailbox mailbox

  unfoldable pub encode_command : Command NaiveDate DateTime → Writer
  unfolding ◌>>◌ write encode_tag encode_command_body
  encode_command command = do
    encode_tag command.tag
    write (codes " ")
    encode_command_body command.body
    write (codes "\r\n")

  -- `CommandCodec::encode`
  unfoldable pub encode : Command NaiveDate DateTime → List Fragment
  unfolding encode_command new into_items
  encode message = into_items (encode_command message new)
