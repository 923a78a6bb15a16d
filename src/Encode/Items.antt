-- ===== src/Encode/Items.antt =====
-- `EncodeIntoContext` of imap-codec/src/codec/encode.rs and of imap-codec/src/extensions for the
-- items that commands are made of.
use imap_codec.Prelude.{
  ℕ, List, [], ◌∷◌, ◌++◌, Bytes, Option, none, some, codes, if◌then◌else◌, length,
}
use imap_codec.Core.Literal.{LiteralMode, sync, non_sync}
use imap_codec.Encode.Context.{write_all, push_line, push_literal}
use imap_codec.Encode.Decimal.{display}
use imap_codec.Encode.Values.{encode_astring, encode_literal, join_serializable}
use imap_codec.Encode.Writer.{Writer, ◌>>◌, write, skip, if_some, encode_number}
use imap_codec.Message.Auth
use imap_codec.Message.Auth.{AuthMechanism}
use imap_codec.Message.Flag as Flags
use imap_codec.Message.Flag.{Flag}
use imap_codec.Message.Fetch
use imap_codec.Message.Fetch.{
  Macro, Part, Section, part, header, header_fields, header_fields_not, text, mime,
  MessageDataItemName, MacroOrMessageDataItemNames, macro_name, message_data_item_names,
}
use imap_codec.Message.Extensions.{
  Literal8, LiteralOrLiteral8, literal, literal8, CompressionAlgorithm, display_compression,
  CapabilityEnable, display_enable, Resource, display_resource, QuotaGet, QuotaSet, SortCriterion,
  sort_key_text, ThreadingAlgorithm, display_threading, UidElement, single, range, UidSet,
}
use imap_codec.Message.StatusItems.{StatusDataItemName}

unfoldable pub encode_auth_mechanism : AuthMechanism → Writer
unfolding write Auth.as_ref
encode_auth_mechanism mechanism = write (Auth.as_ref mechanism)

unfoldable pub encode_flag : Flag → Writer
unfolding write Flags.display
encode_flag flag = write (Flags.display flag)

unfoldable pub encode_status_name : StatusDataItemName → Writer
unfolding write
encode_status_name StatusDataItemName.messages = write (codes "MESSAGES")
encode_status_name StatusDataItemName.recent = write (codes "RECENT")
encode_status_name StatusDataItemName.uid_next = write (codes "UIDNEXT")
encode_status_name StatusDataItemName.uid_validity = write (codes "UIDVALIDITY")
encode_status_name StatusDataItemName.unseen = write (codes "UNSEEN")
encode_status_name StatusDataItemName.deleted = write (codes "DELETED")
encode_status_name StatusDataItemName.deleted_storage = write (codes "DELETED-STORAGE")

-- The announcement of a `literal8` and its line end.
unfoldable pub announcement8 : LiteralMode → Bytes → Bytes
unfolding display
announcement8 sync data_bytes = codes "~{" ++ (display (length data_bytes) ++ codes "}\r\n")
announcement8 non_sync data_bytes = codes "~{" ++ (display (length data_bytes) ++ codes "+}\r\n")

unfoldable pub encode_literal8 : Literal8 → Writer
unfolding announcement8 write_all push_line push_literal
encode_literal8 l ctx =
    let ctx = write_all ctx (announcement8 l.mode l.data_bytes) in
    let ctx = push_line ctx in let ctx = write_all ctx l.data_bytes in push_literal ctx l.mode

unfoldable pub encode_literal_or_literal8 : LiteralOrLiteral8 → Writer
unfolding encode_literal encode_literal8
encode_literal_or_literal8 (literal l) = encode_literal l
encode_literal_or_literal8 (literal8 l) = encode_literal8 l

unfoldable pub encode_compression : CompressionAlgorithm → Writer
unfolding write display_compression
encode_compression algorithm = write (display_compression algorithm)

unfoldable pub encode_enable : CapabilityEnable → Writer
unfolding write display_enable
encode_enable capability = write (display_enable capability)

unfoldable pub encode_resource : Resource → Writer
unfolding write display_resource
encode_resource resource = write (display_resource resource)

unfoldable pub encode_quota_set : QuotaSet → Writer
unfolding ◌>>◌ write encode_resource encode_number
encode_quota_set quota = do
  encode_resource quota.resource
  write (codes " ")
  encode_number quota.limit

unfoldable pub encode_quota_get : QuotaGet → Writer
unfolding ◌>>◌ write encode_resource encode_number
encode_quota_get quota = do
  encode_resource quota.resource
  write (codes " ")
  encode_number quota.usage
  write (codes " ")
  encode_number quota.limit

unfoldable pub encode_sort_criterion : SortCriterion → Writer
unfolding ◌>>◌ write skip sort_key_text
encode_sort_criterion criterion = do
  if criterion.reverse then write (codes "REVERSE ") else skip
  write (sort_key_text criterion.key)

unfoldable pub encode_threading : ThreadingAlgorithm → Writer
unfolding write display_threading
encode_threading algorithm = write (display_threading algorithm)

unfoldable pub encode_uid_element : UidElement → Writer
unfolding ◌>>◌ write encode_number
encode_uid_element (single uid) = encode_number uid
encode_uid_element (range start end) = do encode_number start; write (codes ":"); encode_number end

unfoldable pub encode_uid_set : UidSet → Writer
unfolding join_serializable encode_uid_element
encode_uid_set set = join_serializable encode_uid_element set.inner.inner (codes ",")

unfoldable pub encode_macro : Macro → Writer
unfolding write Fetch.display
encode_macro m = write (Fetch.display m)

unfoldable pub encode_part : Part → Writer
unfolding join_serializable encode_number
encode_part p = join_serializable encode_number p.inner.inner (codes ".")

-- A part and a dot in front of a name, if there is one.
unfoldable pub encode_in_part : Option Part → Bytes → Writer
unfolding ◌>>◌ write encode_part
encode_in_part (some p) name = do encode_part p; write (codes "."); write name
encode_in_part none name = write name

unfoldable pub encode_section : Section → Writer
unfolding ◌>>◌ write encode_part encode_in_part join_serializable encode_astring
encode_section (part p) = encode_part p
encode_section (header maybe_part) = encode_in_part maybe_part (codes "HEADER")
encode_section (header_fields maybe_part header_list) = do
  encode_in_part maybe_part (codes "HEADER.FIELDS (")
  join_serializable encode_astring header_list.inner (codes " ")
  write (codes ")")
encode_section (header_fields_not maybe_part header_list) = do
  encode_in_part maybe_part (codes "HEADER.FIELDS.NOT (")
  join_serializable encode_astring header_list.inner (codes " ")
  write (codes ")")
encode_section (text maybe_part) = encode_in_part maybe_part (codes "TEXT")
encode_section (mime p) = do encode_part p; write (codes ".MIME")

-- `<{a}.{b}>`
unfoldable pub encode_partial : ℕ × ℕ → Writer
unfolding ◌>>◌ write encode_number
encode_partial (a, b) = do
  write (codes "<")
  encode_number a
  write (codes ".")
  encode_number b
  write (codes ">")

unfoldable pub encode_item_name : MessageDataItemName → Writer
unfolding ◌>>◌ write skip if_some encode_section encode_partial encode_number join_serializable
encode_item_name MessageDataItemName.body = write (codes "BODY")
encode_item_name (MessageDataItemName.body_ext part_section partial peek) = do
  if peek then write (codes "BODY.PEEK[") else write (codes "BODY[")
  if_some part_section encode_section
  write (codes "]")
  if_some partial encode_partial
encode_item_name MessageDataItemName.body_structure = write (codes "BODYSTRUCTURE")
encode_item_name MessageDataItemName.envelope = write (codes "ENVELOPE")
encode_item_name MessageDataItemName.flags = write (codes "FLAGS")
encode_item_name MessageDataItemName.internal_date = write (codes "INTERNALDATE")
encode_item_name MessageDataItemName.rfc822 = write (codes "RFC822")
encode_item_name MessageDataItemName.rfc822_header = write (codes "RFC822.HEADER")
encode_item_name MessageDataItemName.rfc822_size = write (codes "RFC822.SIZE")
encode_item_name MessageDataItemName.rfc822_text = write (codes "RFC822.TEXT")
encode_item_name MessageDataItemName.uid = write (codes "UID")
encode_item_name (MessageDataItemName.binary numbers partial peek) = do
  write (codes "BINARY")
  if peek then write (codes ".PEEK") else skip
  write (codes "[")
  join_serializable encode_number numbers (codes ".")
  write (codes "]")
  if_some partial encode_partial
encode_item_name (MessageDataItemName.binary_size numbers) = do
  write (codes "BINARY.SIZE")
  write (codes "[")
  join_serializable encode_number numbers (codes ".")
  write (codes "]")

unfoldable pub encode_item_names : List MessageDataItemName → Writer
unfolding ◌>>◌ write encode_item_name join_serializable
encode_item_names [] = do
  write (codes "(")
  join_serializable encode_item_name [] (codes " ")
  write (codes ")")
encode_item_names (item_name ∷ []) = encode_item_name item_name
encode_item_names (item_name ∷ next ∷ item_names) = do
  write (codes "(")
  join_serializable encode_item_name (item_name ∷ next ∷ item_names) (codes " ")
  write (codes ")")

unfoldable pub encode_macro_or_names : MacroOrMessageDataItemNames → Writer
unfolding encode_macro encode_item_names
encode_macro_or_names (macro_name m) = encode_macro m
encode_macro_or_names (message_data_item_names item_names) = encode_item_names item_names
