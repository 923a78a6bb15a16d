-- ===== src/Message/Extensions.antt =====
-- The extensions of imap-types/src/extensions that a default build has: binary, compress, enable,
-- quota, sort, thread and uidplus.
use imap_codec.Prelude.{List, ℕ, Bool, [], ◌∷◌, Bytes, codes, ok}
use imap_codec.Core.Atom.{Atom}
use imap_codec.Core.Literal.{Literal, LiteralMode}
use imap_codec.Core.NString.{NString}
use imap_codec.Core.Validation.{Checked, fail, invalid}
use imap_codec.Core.VecN.{Vec1}
use imap_codec.Message.Names.{keyword, to_ascii_lowercase, to_ascii_uppercase}

pub record Literal8 : Type 0 where
  pub data_bytes : Bytes
  pub mode : LiteralMode

pub data LiteralOrLiteral8 : Type 0 where
  literal : Literal → LiteralOrLiteral8
  literal8 : Literal8 → LiteralOrLiteral8

-- `NString8` of imap-types/src/core.rs.
pub data NString8 : Type 0 where
  nstring : NString → NString8
  literal8 : Literal8 → NString8

pub data CompressionAlgorithm : Type 0 where
  deflate : CompressionAlgorithm

unfoldable pub display_compression : CompressionAlgorithm → Bytes
display_compression deflate = codes "DEFLATE"

-- `TryFrom` of byte strings and of an `Atom`.
unfoldable pub compression_try_from : Bytes → Checked CompressionAlgorithm
unfolding keyword to_ascii_lowercase
compression_try_from value =
    keyword (to_ascii_lowercase value) ((codes "deflate", ok deflate) ∷ []) (fail invalid)

-- `CapabilityEnableOther` is the only capability of a default build.
pub data CapabilityEnable : Type 0 where
  other : Atom → CapabilityEnable

unfoldable pub display_enable : CapabilityEnable → Bytes
display_enable (CapabilityEnable.other a) = a.inner

pub data Resource : Type 0 where
  storage : Resource
  message : Resource
  mailbox : Resource
  annotation_storage : Resource
  -- `ResourceOther`
  other : Atom → Resource

abbrev pub resource_names : List (Bytes × Resource)
resource_names =
    (codes "STORAGE", storage)
    ∷ (codes "MESSAGE", message)
    ∷ (codes "MAILBOX", mailbox)
    ∷ (codes "ANNOTATION-STORAGE", annotation_storage)
    ∷ []

unfoldable pub resource_from : Atom → Resource
unfolding keyword to_ascii_uppercase
resource_from a = keyword (to_ascii_uppercase a.inner) resource_names (Resource.other a)

unfoldable pub display_resource : Resource → Bytes
display_resource storage = codes "STORAGE"
display_resource message = codes "MESSAGE"
display_resource mailbox = codes "MAILBOX"
display_resource annotation_storage = codes "ANNOTATION-STORAGE"
display_resource (Resource.other a) = a.inner

-- A usage and a limit are numbers of 64 bits.
pub record QuotaGet : Type 0 where
  pub resource : Resource
  pub usage : ℕ
  pub limit : ℕ

pub record QuotaSet : Type 0 where
  pub resource : Resource
  pub limit : ℕ

pub data SortKey : Type 0 where
  arrival : SortKey
  cc_to : SortKey
  date : SortKey
  from : SortKey
  size : SortKey
  subject : SortKey
  to : SortKey
  display_from : SortKey
  display_to : SortKey

unfoldable pub sort_key_text : SortKey → Bytes
sort_key_text arrival = codes "ARRIVAL"
sort_key_text cc_to = codes "CC"
sort_key_text date = codes "DATE"
sort_key_text from = codes "FROM"
sort_key_text size = codes "SIZE"
sort_key_text subject = codes "SUBJECT"
sort_key_text to = codes "TO"
sort_key_text display_from = codes "DISPLAYFROM"
sort_key_text display_to = codes "DISPLAYTO"

pub record SortCriterion : Type 0 where
  pub reverse : Bool
  pub key : SortKey

pub data SortAlgorithm : Type 0 where
  display : SortAlgorithm
  -- `SortAlgorithmOther`
  other : Atom → SortAlgorithm

abbrev pub sort_algorithm_names : List (Bytes × SortAlgorithm)
sort_algorithm_names = (codes "display", display) ∷ []

-- `to_lowercase` of an atom, which is ASCII.
unfoldable pub sort_algorithm_from : Atom → SortAlgorithm
unfolding keyword to_ascii_lowercase
sort_algorithm_from a =
    keyword (to_ascii_lowercase a.inner) sort_algorithm_names (SortAlgorithm.other a)

unfoldable pub display_sort_algorithm : SortAlgorithm → Bytes
display_sort_algorithm display = codes "DISPLAY"
display_sort_algorithm (SortAlgorithm.other a) = a.inner

pub data ThreadingAlgorithm : Type 0 where
  ordered_subject : ThreadingAlgorithm
  references : ThreadingAlgorithm
  -- `ThreadingAlgorithmOther`
  other : Atom → ThreadingAlgorithm

abbrev pub threading_names : List (Bytes × ThreadingAlgorithm)
threading_names = (codes "orderedsubject", ordered_subject) ∷ (codes "references", references) ∷ []

unfoldable pub threading_from : Atom → ThreadingAlgorithm
unfolding keyword to_ascii_lowercase
threading_from a = keyword (to_ascii_lowercase a.inner) threading_names (ThreadingAlgorithm.other a)

unfoldable pub display_threading : ThreadingAlgorithm → Bytes
display_threading ordered_subject = codes "ORDEREDSUBJECT"
display_threading references = codes "REFERENCES"
display_threading (ThreadingAlgorithm.other a) = a.inner

-- `Threads` stands for `Vec2<Thread>`.
mutual
  pub data Thread : Type 0 where
    members : Vec1 ℕ → Thread
    members_with : Vec1 ℕ → Threads → Thread
    nested : Threads → Thread

  pub data Threads : Type 0 where
    nil : Threads
    cons : Thread → Threads → Threads

pub data UidElement : Type 0 where
  single : ℕ → UidElement
  range : ℕ → ℕ → UidElement

pub record UidSet : Type 0 where
  pub inner : Vec1 UidElement
