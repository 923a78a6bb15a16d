-- ===== src/Message/Command.antt =====
-- imap-types/src/command.rs
use imap_codec.Prelude.{codes, Bool, List, Bytes, Option}
use imap_codec.Core.AString.{AString}
use imap_codec.Core.Charset.{Charset}
use imap_codec.Core.Tag.{Tag}
use imap_codec.Core.VecN.{Vec1}
use imap_codec.Mailbox.{Mailbox, ListMailbox}
use imap_codec.Sequence.Types.{SequenceSet}
use imap_codec.Message.Auth.{AuthMechanism}
use imap_codec.Message.Extensions.{
  LiteralOrLiteral8, CompressionAlgorithm, CapabilityEnable, QuotaSet, SortCriterion,
  ThreadingAlgorithm,
}
use imap_codec.Message.Fetch.{MacroOrMessageDataItemNames}
use imap_codec.Message.Flag.{Flag, StoreType, StoreResponse}
use imap_codec.Message.Search.{SearchKeys}
use imap_codec.Message.StatusItems.{StatusDataItemName}

-- The commands of a default build. A `Secret` is what it holds.
pub data CommandBody (NaiveDate DateTime : Type 0) : Type 0 where
  capability : CommandBody NaiveDate DateTime
  noop : CommandBody NaiveDate DateTime
  logout : CommandBody NaiveDate DateTime
  authenticate :
      (mechanism : AuthMechanism) (initial_response : Option Bytes) → CommandBody NaiveDate DateTime
  login : (username : AString) (password : AString) → CommandBody NaiveDate DateTime
  select : (mailbox : Mailbox) → CommandBody NaiveDate DateTime
  unselect : CommandBody NaiveDate DateTime
  examine : (mailbox : Mailbox) → CommandBody NaiveDate DateTime
  create : (mailbox : Mailbox) → CommandBody NaiveDate DateTime
  delete : (mailbox : Mailbox) → CommandBody NaiveDate DateTime
  rename : (from : Mailbox) (to : Mailbox) → CommandBody NaiveDate DateTime
  subscribe : (mailbox : Mailbox) → CommandBody NaiveDate DateTime
  unsubscribe : (mailbox : Mailbox) → CommandBody NaiveDate DateTime
  list : (reference : Mailbox) (mailbox_wildcard : ListMailbox) → CommandBody NaiveDate DateTime
  lsub : (reference : Mailbox) (mailbox_wildcard : ListMailbox) → CommandBody NaiveDate DateTime
  status :
      (mailbox : Mailbox) (item_names : List StatusDataItemName) → CommandBody NaiveDate DateTime
  append :
      (mailbox : Mailbox) (flags : List Flag) (date : Option DateTime) (message : LiteralOrLiteral8)
      → CommandBody NaiveDate DateTime
  check : CommandBody NaiveDate DateTime
  close : CommandBody NaiveDate DateTime
  expunge : CommandBody NaiveDate DateTime
  expunge_uid : (sequence_set : SequenceSet) → CommandBody NaiveDate DateTime
  search :
      (charset : Option Charset) (criteria : SearchKeys NaiveDate) (uid : Bool)
      → CommandBody NaiveDate DateTime
  sort :
      (sort_criteria : Vec1 SortCriterion) (charset : Charset)
      (search_criteria : SearchKeys NaiveDate) (uid : Bool)
      → CommandBody NaiveDate DateTime
  thread :
      (algorithm : ThreadingAlgorithm) (charset : Charset) (search_criteria : SearchKeys NaiveDate)
      (uid : Bool)
      → CommandBody NaiveDate DateTime
  fetch :
      (sequence_set : SequenceSet) (macro_or_item_names : MacroOrMessageDataItemNames) (uid : Bool)
      → CommandBody NaiveDate DateTime
  store :
      (sequence_set : SequenceSet) (kind : StoreType) (response : StoreResponse) (flags : List Flag)
      (uid : Bool)
      → CommandBody NaiveDate DateTime
  copy :
      (sequence_set : SequenceSet) (mailbox : Mailbox) (uid : Bool) → CommandBody NaiveDate DateTime
  idle : CommandBody NaiveDate DateTime
  enable : (capabilities : Vec1 CapabilityEnable) → CommandBody NaiveDate DateTime
  compress : (algorithm : CompressionAlgorithm) → CommandBody NaiveDate DateTime
  get_quota : (root : AString) → CommandBody NaiveDate DateTime
  get_quota_root : (mailbox : Mailbox) → CommandBody NaiveDate DateTime
  set_quota : (root : AString) (quotas : List QuotaSet) → CommandBody NaiveDate DateTime
  move :
      (sequence_set : SequenceSet) (mailbox : Mailbox) (uid : Bool) → CommandBody NaiveDate DateTime

pub record Command (NaiveDate DateTime : Type 0) : Type 0 where
  pub tag : Tag
  pub body : CommandBody NaiveDate DateTime

unfoldable pub name : {NaiveDate DateTime : Type 0} → CommandBody NaiveDate DateTime → Bytes
name CommandBody.capability = codes "CAPABILITY"
name CommandBody.noop = codes "NOOP"
name CommandBody.logout = codes "LOGOUT"
name (CommandBody.authenticate mechanism initial_response) = codes "AUTHENTICATE"
name (CommandBody.login username password) = codes "LOGIN"
name (CommandBody.select mailbox) = codes "SELECT"
name CommandBody.unselect = codes "UNSELECT"
name (CommandBody.examine mailbox) = codes "EXAMINE"
name (CommandBody.create mailbox) = codes "CREATE"
name (CommandBody.delete mailbox) = codes "DELETE"
name (CommandBody.rename from to) = codes "RENAME"
name (CommandBody.subscribe mailbox) = codes "SUBSCRIBE"
name (CommandBody.unsubscribe mailbox) = codes "UNSUBSCRIBE"
name (CommandBody.list reference mailbox_wildcard) = codes "LIST"
name (CommandBody.lsub reference mailbox_wildcard) = codes "LSUB"
name (CommandBody.status mailbox item_names) = codes "STATUS"
name (CommandBody.append mailbox flags date message) = codes "APPEND"
name CommandBody.check = codes "CHECK"
name CommandBody.close = codes "CLOSE"
name CommandBody.expunge = codes "EXPUNGE"
name (CommandBody.expunge_uid sequence_set) = codes "EXPUNGE"
name (CommandBody.search charset criteria uid) = codes "SEARCH"
name (CommandBody.sort sort_criteria charset search_criteria uid) = codes "SORT"
name (CommandBody.thread algorithm charset search_criteria uid) = codes "THREAD"
name (CommandBody.fetch sequence_set macro_or_item_names uid) = codes "FETCH"
name (CommandBody.store sequence_set kind response flags uid) = codes "STORE"
name (CommandBody.copy sequence_set mailbox uid) = codes "COPY"
name CommandBody.idle = codes "IDLE"
name (CommandBody.enable capabilities) = codes "ENABLE"
name (CommandBody.compress algorithm) = codes "COMPRESS"
name (CommandBody.get_quota root) = codes "GETQUOTA"
name (CommandBody.get_quota_root mailbox) = codes "GETQUOTAROOT"
name (CommandBody.set_quota root quotas) = codes "SETQUOTA"
name (CommandBody.move sequence_set mailbox uid) = codes "MOVE"
