-- ===== src/Message/Response.antt =====
-- imap-types/src/response.rs, and the items of imap-types/src/fetch.rs that FETCH responds with.
pub mod Capabilities
use imap_codec.Prelude.{ℕ, List, ◌++◌, Bytes, codes, Option, none, some}
use imap_codec.Core.Atom.{Atom}
use imap_codec.Core.AString.{AString}
use imap_codec.Core.Charset.{Charset}
use imap_codec.Core.NString.{NString}
use imap_codec.Core.QuotedChar.{QuotedChar}
use imap_codec.Core.Tag.{Tag}
use imap_codec.Core.Text.{Text}
use imap_codec.Core.VecN.{Vec1}
use imap_codec.Mailbox.{Mailbox}
use imap_codec.Message.Auth
use imap_codec.Message.Auth.{AuthMechanism}
use imap_codec.Message.Body.{BodyStructure}
use imap_codec.Message.Envelope.{Envelope}
use imap_codec.Message.Extensions.{
  CompressionAlgorithm, display_compression, CapabilityEnable, Resource, display_resource, QuotaGet,
  SortAlgorithm, display_sort_algorithm, ThreadingAlgorithm, display_threading, Thread, UidSet,
  NString8,
}
use imap_codec.Message.Fetch.{Section}
use imap_codec.Message.Flag.{Flag, FlagFetch, FlagPerm, FlagNameAttribute}
use imap_codec.Message.StatusItems.{StatusDataItem}

pub data Capability : Type 0 where
  imap4_rev1 : Capability
  auth : AuthMechanism → Capability
  login_disabled : Capability
  idle : Capability
  sasl_ir : Capability
  enable : Capability
  compress : CompressionAlgorithm → Capability
  quota : Capability
  quota_res : Resource → Capability
  quota_set : Capability
  literal_plus : Capability
  literal_minus : Capability
  move : Capability
  unselect : Capability
  sort : Option SortAlgorithm → Capability
  thread : ThreadingAlgorithm → Capability
  binary : Capability
  uid_plus : Capability
  list_extended : Capability
  -- `CapabilityOther`
  other : Atom → Capability

-- `Display`
unfoldable pub display : Capability → Bytes
unfolding Auth.as_ref display_compression display_resource display_sort_algorithm display_threading
display imap4_rev1 = codes "IMAP4REV1"
display (auth mechanism) = codes "AUTH=" ++ Auth.as_ref mechanism
display login_disabled = codes "LOGINDISABLED"
display idle = codes "IDLE"
display sasl_ir = codes "SASL-IR"
display enable = codes "ENABLE"
display (compress algorithm) = codes "COMPRESS=" ++ display_compression algorithm
display quota = codes "QUOTA"
display (quota_res resource) = codes "QUOTA=RES-" ++ display_resource resource
display quota_set = codes "QUOTASET"
display literal_plus = codes "LITERAL+"
display literal_minus = codes "LITERAL-"
display move = codes "MOVE"
display unselect = codes "UNSELECT"
display (sort none) = codes "SORT"
display (sort (some algorithm)) = codes "SORT=" ++ display_sort_algorithm algorithm
display (thread algorithm) = codes "THREAD=" ++ display_threading algorithm
display binary = codes "BINARY"
display uid_plus = codes "UIDPLUS"
display list_extended = codes "LIST-EXTENDED"
display (other a) = a.inner

-- `CodeOther` is a byte string.
pub data Code : Type 0 where
  alert : Code
  bad_charset : List Charset → Code
  capability : Vec1 Capability → Code
  parse : Code
  permanent_flags : List FlagPerm → Code
  read_only : Code
  read_write : Code
  try_create : Code
  uid_next : ℕ → Code
  uid_validity : ℕ → Code
  unseen : ℕ → Code
  compression_active : Code
  over_quota : Code
  too_big : Code
  unknown_cte : Code
  append_uid : (uid_validity uid : ℕ) → Code
  copy_uid : (uid_validity : ℕ) (source destination : UidSet) → Code
  uid_not_sticky : Code
  other : Bytes → Code

pub data GreetingKind : Type 0 where
  ok_greeting : GreetingKind
  pre_auth : GreetingKind
  bye : GreetingKind

pub record Greeting : Type 0 where
  pub kind : GreetingKind
  pub code : Option Code
  pub text : Text

pub data StatusKind : Type 0 where
  ok_status : StatusKind
  no_status : StatusKind
  bad_status : StatusKind

pub record StatusBody : Type 0 where
  pub kind : StatusKind
  pub code : Option Code
  pub text : Text

pub data Status : Type 0 where
  untagged : StatusBody → Status
  tagged : Tag → StatusBody → Status
  bye : (code : Option Code) (text : Text) → Status

pub data MessageDataItem (DateTime : Type 0) : Type 0 where
  body : BodyStructure → MessageDataItem DateTime
  body_ext :
      (part_section : Option Section) (origin : Option ℕ) (content : NString)
      → MessageDataItem DateTime
  body_structure : BodyStructure → MessageDataItem DateTime
  envelope : Envelope → MessageDataItem DateTime
  flags : List FlagFetch → MessageDataItem DateTime
  internal_date : DateTime → MessageDataItem DateTime
  rfc822 : NString → MessageDataItem DateTime
  rfc822_header : NString → MessageDataItem DateTime
  rfc822_size : ℕ → MessageDataItem DateTime
  rfc822_text : NString → MessageDataItem DateTime
  uid : ℕ → MessageDataItem DateTime
  binary : (numbers : List ℕ) (value : NString8) → MessageDataItem DateTime
  binary_size : (numbers : List ℕ) (size : ℕ) → MessageDataItem DateTime

pub data Data (DateTime : Type 0) : Type 0 where
  capability : Vec1 Capability → Data DateTime
  list :
      (items : List FlagNameAttribute) (delimiter : Option QuotedChar) (mailbox : Mailbox)
      → Data DateTime
  lsub :
      (items : List FlagNameAttribute) (delimiter : Option QuotedChar) (mailbox : Mailbox)
      → Data DateTime
  status : (mailbox : Mailbox) (items : List StatusDataItem) → Data DateTime
  search : List ℕ → Data DateTime
  sort : List ℕ → Data DateTime
  thread : List Thread → Data DateTime
  flags : List Flag → Data DateTime
  exists : ℕ → Data DateTime
  recent : ℕ → Data DateTime
  expunge : ℕ → Data DateTime
  fetch : (seq : ℕ) (items : Vec1 (MessageDataItem DateTime)) → Data DateTime
  enabled : (capabilities : List CapabilityEnable) → Data DateTime
  quota : (root : AString) (quotas : Vec1 QuotaGet) → Data DateTime
  quota_root : (mailbox : Mailbox) (roots : List AString) → Data DateTime

pub data CommandContinuationRequest : Type 0 where
  basic : (code : Option Code) (text : Text) → CommandContinuationRequest
  base64 : Bytes → CommandContinuationRequest

pub data Response (DateTime : Type 0) : Type 0 where
  command_continuation_request : CommandContinuationRequest → Response DateTime
  data_response : Data DateTime → Response DateTime
  status : Status → Response DateTime
