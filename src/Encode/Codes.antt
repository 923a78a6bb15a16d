-- ===== src/Encode/Codes.antt =====
-- Flags, capabilities and response codes (imap-types/src/flag.rs, imap-types/src/response.rs) as
-- imap-codec/src/codec/encode.rs writes them.
use imap_codec.Prelude.{List, [], ◌∷◌, Option, none, some, codes, ◌==◌, if◌then◌else◌}
use imap_codec.Core.Charset.{Charset}
use imap_codec.Core.QuotedChar.{QuotedChar}
use imap_codec.Encode.Values.{encode_charset, encode_nstring, join_serializable}
use imap_codec.Encode.Writer.{Writer, ◌>>◌, write, encode_number}
use imap_codec.Encode.Items.{encode_flag, encode_literal8, encode_uid_set}
use imap_codec.Message.Extensions.{NString8, nstring, literal8}
use imap_codec.Message.Flag.{
  FlagFetch, FlagPerm, asterisk, FlagNameAttribute, display_name_attribute,
}
use imap_codec.Message.Response
use imap_codec.Message.Response.{Capability, Code}
use imap_codec.Message.StatusItems.{StatusDataItem}

unfoldable pub encode_flag_fetch : FlagFetch → Writer
unfolding write encode_flag
encode_flag_fetch (FlagFetch.flag flag) = encode_flag flag
encode_flag_fetch FlagFetch.recent = write (codes "\\Recent")

unfoldable pub encode_flag_perm : FlagPerm → Writer
unfolding write encode_flag
encode_flag_perm (FlagPerm.flag flag) = encode_flag flag
encode_flag_perm asterisk = write (codes "\\*")

unfoldable pub encode_name_attribute : FlagNameAttribute → Writer
unfolding write display_name_attribute
encode_name_attribute attribute = write (display_name_attribute attribute)

unfoldable pub encode_quoted_char : QuotedChar → Writer
unfolding write
encode_quoted_char char =
    if char.inner == b'\\'
    then write (codes "\\\\")
    else if char.inner == b'"'
    then write (codes "\\\"")
    else write (char.inner ∷ [])

unfoldable pub encode_delimiter : Option QuotedChar → Writer
unfolding ◌>>◌ write encode_quoted_char
encode_delimiter (some delimiter) = do
  write (codes "\"")
  encode_quoted_char delimiter
  write (codes "\"")
encode_delimiter none = write (codes "NIL")

unfoldable pub encode_status_item : StatusDataItem → Writer
unfolding ◌>>◌ write encode_number
encode_status_item (StatusDataItem.messages count) = do
  write (codes "MESSAGES ")
  encode_number count
encode_status_item (StatusDataItem.recent count) = do write (codes "RECENT "); encode_number count
encode_status_item (StatusDataItem.uid_next uid) = do write (codes "UIDNEXT "); encode_number uid
encode_status_item (StatusDataItem.uid_validity identifier) = do
  write (codes "UIDVALIDITY ")
  encode_number identifier
encode_status_item (StatusDataItem.unseen count) = do write (codes "UNSEEN "); encode_number count
encode_status_item (StatusDataItem.deleted count) = do write (codes "DELETED "); encode_number count
encode_status_item (StatusDataItem.deleted_storage count) = do
  write (codes "DELETED-STORAGE ")
  encode_number count

unfoldable pub encode_nstring8 : NString8 → Writer
unfolding encode_nstring encode_literal8
encode_nstring8 (nstring value) = encode_nstring value
encode_nstring8 (literal8 value) = encode_literal8 value

unfoldable pub encode_capability : Capability → Writer
unfolding write Response.display
encode_capability capability = write (Response.display capability)

unfoldable pub encode_allowed_charsets : List Charset → Writer
unfolding ◌>>◌ write encode_charset join_serializable
encode_allowed_charsets [] = write (codes "BADCHARSET")
encode_allowed_charsets (charset ∷ allowed) = do
  write (codes "BADCHARSET (")
  join_serializable encode_charset (charset ∷ allowed) (codes " ")
  write (codes ")")

unfoldable pub encode_code : Code → Writer
unfolding ◌>>◌ write encode_number encode_allowed_charsets encode_capability encode_flag_perm
    encode_uid_set join_serializable
encode_code Code.alert = write (codes "ALERT")
encode_code (Code.bad_charset allowed) = encode_allowed_charsets allowed
encode_code (Code.capability caps) = do
  write (codes "CAPABILITY ")
  join_serializable encode_capability caps.inner (codes " ")
encode_code Code.parse = write (codes "PARSE")
encode_code (Code.permanent_flags flags) = do
  write (codes "PERMANENTFLAGS (")
  join_serializable encode_flag_perm flags (codes " ")
  write (codes ")")
encode_code Code.read_only = write (codes "READ-ONLY")
encode_code Code.read_write = write (codes "READ-WRITE")
encode_code Code.try_create = write (codes "TRYCREATE")
encode_code (Code.uid_next next_uid) = do write (codes "UIDNEXT "); encode_number next_uid
encode_code (Code.uid_validity validity) = do write (codes "UIDVALIDITY "); encode_number validity
encode_code (Code.unseen seq) = do write (codes "UNSEEN "); encode_number seq
encode_code Code.compression_active = write (codes "COMPRESSIONACTIVE")
encode_code Code.over_quota = write (codes "OVERQUOTA")
encode_code Code.too_big = write (codes "TOOBIG")
encode_code Code.unknown_cte = write (codes "UNKNOWN-CTE")
encode_code (Code.append_uid uid_validity uid) = do
  write (codes "APPENDUID ")
  encode_number uid_validity
  write (codes " ")
  encode_number uid
encode_code (Code.copy_uid uid_validity source destination) = do
  write (codes "COPYUID ")
  encode_number uid_validity
  write (codes " ")
  encode_uid_set source
  write (codes " ")
  encode_uid_set destination
encode_code Code.uid_not_sticky = write (codes "UIDNOTSTICKY")
encode_code (Code.other unknown) = write unknown
