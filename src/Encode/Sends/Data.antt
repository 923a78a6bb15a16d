-- ===== src/Encode/Sends/Data.antt =====
-- The data of a response (imap-codec/src/codec/encode.rs).
use imap_codec.Encode.Sends.Threads.{Sends-seqs, Sends-origin, Sends-threads}
use imap_codec.Prelude.{refl, codes, All}
use imap_codec.Encode.Strings.{IsEncodable, IsEncodableMailbox}
use imap_codec.Encode.Sends.{
  Sends, Sends->>, Sends-plain, Sends-number, Sends-if_some, IfSome, Sends-join, Sends-for_each,
}
use imap_codec.Encode.Sends.Strings.{
  IsEncodableNString, Sends-astring, Sends-mailbox, Sends-nstring,
}
use imap_codec.Encode.Sends.Sets.{IsPlain, All-Unit}
use imap_codec.Encode.Sends.Items.{
  IsEncodableFlag, IsEncodableEnable, IsEncodableResource, Sends-flag, Sends-enable,
  Sends-quota_get,
}
use imap_codec.Encode.Sends.Sections.{IsEncodableSection, Sends-section, Sends-numbers}
use imap_codec.Encode.Sends.Bodies.{
  IsEncodableEnvelope, Sends-envelope, IsEncodableStructure, Sends-body_structure,
}
use imap_codec.Encode.Sends.Codes.{
  IsEncodableFlagFetch, Sends-flag_fetch, IsEncodableAttribute, Sends-name_attribute,
  IsEncodableDelimiter, Sends-delimiter, Sends-status_item, IsEncodableNString8, Sends-nstring8,
  IsEncodableCapability, Sends-capability,
}
use imap_codec.Encode.Sends.Commands.{Sends-date_time}
use imap_codec.Encode.Responses.{encode_item, encode_data_items}
use imap_codec.Message.Extensions.{QuotaGet}
use imap_codec.Message.Packages.{Packages}
use imap_codec.Message.Response.{MessageDataItem, Data}

-- The values in an item are those that their types allow.
abbrev pub IsEncodableItem : {DateTime : Type 0} → MessageDataItem DateTime → Type 0
IsEncodableItem (MessageDataItem.body body) = IsEncodableStructure body
IsEncodableItem (MessageDataItem.body_ext part_section origin content) =
    IfSome IsEncodableSection part_section × IsEncodableNString content
IsEncodableItem (MessageDataItem.body_structure body) = IsEncodableStructure body
IsEncodableItem (MessageDataItem.envelope envelope) = IsEncodableEnvelope envelope
IsEncodableItem (MessageDataItem.flags flags) = All IsEncodableFlagFetch flags
IsEncodableItem (MessageDataItem.internal_date datetime) = Unit
IsEncodableItem (MessageDataItem.rfc822 nstring) = IsEncodableNString nstring
IsEncodableItem (MessageDataItem.rfc822_header nstring) = IsEncodableNString nstring
IsEncodableItem (MessageDataItem.rfc822_size size) = Unit
IsEncodableItem (MessageDataItem.rfc822_text nstring) = IsEncodableNString nstring
IsEncodableItem (MessageDataItem.uid uid) = Unit
IsEncodableItem (MessageDataItem.binary numbers value) = IsEncodableNString8 value
IsEncodableItem (MessageDataItem.binary_size numbers size) = Unit

abbrev pub IsEncodableData : {DateTime : Type 0} → Data DateTime → Type 0
IsEncodableData (Data.capability caps) = All IsEncodableCapability caps.inner
IsEncodableData (Data.list items delimiter mailbox) =
    All IsEncodableAttribute items
    × IfSome IsEncodableDelimiter delimiter
    × IsEncodableMailbox mailbox
IsEncodableData (Data.lsub items delimiter mailbox) =
    All IsEncodableAttribute items
    × IfSome IsEncodableDelimiter delimiter
    × IsEncodableMailbox mailbox
IsEncodableData (Data.status mailbox items) = IsEncodableMailbox mailbox
IsEncodableData (Data.search seqs) = Unit
IsEncodableData (Data.sort seqs) = Unit
IsEncodableData (Data.thread threads) = Unit
IsEncodableData (Data.flags flags) = All IsEncodableFlag flags
IsEncodableData (Data.exists count) = Unit
IsEncodableData (Data.recent count) = Unit
IsEncodableData (Data.expunge count) = Unit
IsEncodableData (Data.fetch seq items) = All IsEncodableItem items.inner
IsEncodableData (Data.enabled capabilities) = All IsEncodableEnable capabilities
IsEncodableData (Data.quota root quotas) =
    IsEncodable root × All (λ q. IsEncodableResource q.resource) quotas.inner
IsEncodableData (Data.quota_root mailbox roots) = IsEncodableMailbox mailbox × All IsEncodable roots

module _ {NaiveDate DateTime : Type 0} (packages : Packages NaiveDate DateTime)
    (plain : IsPlain packages) where
  Sends-item : (i : MessageDataItem DateTime) → IsEncodableItem i → Sends (encode_item packages i)
  unfolding encode_item
  Sends-item (MessageDataItem.body body) h =
      Sends->> (Sends-plain (codes "BODY ") refl) (Sends-body_structure body h)
  Sends-item (MessageDataItem.body_ext part_section origin content) (h0, h1) =
      Sends->> (Sends-plain (codes "BODY[") refl) (
        Sends->> (Sends-if_some IsEncodableSection part_section Sends-section h0) (
          Sends->> (Sends-plain (codes "]") refl) (
            Sends->> (Sends-origin origin)
              (Sends->> (Sends-plain (codes " ") refl) (Sends-nstring content h1)))))
  Sends-item (MessageDataItem.body_structure body) h =
      Sends->> (Sends-plain (codes "BODYSTRUCTURE ") refl) (Sends-body_structure body h)
  Sends-item (MessageDataItem.envelope envelope) h =
      Sends->> (Sends-plain (codes "ENVELOPE ") refl) (Sends-envelope envelope h)
  Sends-item (MessageDataItem.flags flags) h = Sends->> (Sends-plain (codes "FLAGS (") refl) (
      Sends->> (Sends-join IsEncodableFlagFetch flags (codes " ") Sends-flag_fetch refl h)
        (Sends-plain (codes ")") refl))
  Sends-item (MessageDataItem.internal_date datetime) h =
      Sends->> (Sends-plain (codes "INTERNALDATE ") refl) (Sends-date_time packages plain datetime)
  Sends-item (MessageDataItem.rfc822 nstring) h =
      Sends->> (Sends-plain (codes "RFC822 ") refl) (Sends-nstring nstring h)
  Sends-item (MessageDataItem.rfc822_header nstring) h =
      Sends->> (Sends-plain (codes "RFC822.HEADER ") refl) (Sends-nstring nstring h)
  Sends-item (MessageDataItem.rfc822_size size) h =
      Sends->> (Sends-plain (codes "RFC822.SIZE ") refl) (Sends-number size)
  Sends-item (MessageDataItem.rfc822_text nstring) h =
      Sends->> (Sends-plain (codes "RFC822.TEXT ") refl) (Sends-nstring nstring h)
  Sends-item (MessageDataItem.uid uid) h =
      Sends->> (Sends-plain (codes "UID ") refl) (Sends-number uid)
  Sends-item (MessageDataItem.binary numbers value) h =
      Sends->> (Sends-plain (codes "BINARY[") refl) (
        Sends->> (Sends-numbers numbers (codes ".") refl)
          (Sends->> (Sends-plain (codes "] ") refl) (Sends-nstring8 value h)))
  Sends-item (MessageDataItem.binary_size numbers size) h =
      Sends->> (Sends-plain (codes "BINARY.SIZE[") refl) (
        Sends->> (Sends-numbers numbers (codes ".") refl)
          (Sends->> (Sends-plain (codes "] ") refl) (Sends-number size)))

  pub Sends-data_items :
      (d : Data DateTime) → IsEncodableData d → Sends (encode_data_items packages d)
  unfolding encode_data_items
  Sends-data_items (Data.capability caps) h =
      Sends->> (Sends-plain (codes "* CAPABILITY ") refl)
        (Sends-join IsEncodableCapability caps.inner (codes " ") Sends-capability refl h)
  Sends-data_items (Data.list items delimiter mailbox) (h0, h1, h2) =
      Sends->> (Sends-plain (codes "* LIST (") refl) (
        Sends->> (Sends-join IsEncodableAttribute items (codes " ") Sends-name_attribute refl h0) (
          Sends->> (Sends-plain (codes ") ") refl) (
            Sends->> (Sends-delimiter delimiter h1)
              (Sends->> (Sends-plain (codes " ") refl) (Sends-mailbox mailbox h2)))))
  Sends-data_items (Data.lsub items delimiter mailbox) (h0, h1, h2) =
      Sends->> (Sends-plain (codes "* LSUB (") refl) (
        Sends->> (Sends-join IsEncodableAttribute items (codes " ") Sends-name_attribute refl h0) (
          Sends->> (Sends-plain (codes ") ") refl) (
            Sends->> (Sends-delimiter delimiter h1)
              (Sends->> (Sends-plain (codes " ") refl) (Sends-mailbox mailbox h2)))))
  Sends-data_items (Data.status mailbox items) h = Sends->> (Sends-plain (codes "* STATUS ") refl) (
      Sends->> (Sends-mailbox mailbox h) (
        Sends->> (Sends-plain (codes " (") refl) (
          Sends->>
            (Sends-join (λ _. Unit {0}) items (codes " ") (λ i _. Sends-status_item i) refl
              (All-Unit items))
            (Sends-plain (codes ")") refl))))
  Sends-data_items (Data.search seqs) h = Sends-seqs (codes "* SEARCH") seqs refl
  Sends-data_items (Data.sort seqs) h = Sends-seqs (codes "* SORT") seqs refl
  Sends-data_items (Data.thread threads) h = Sends-threads threads
  Sends-data_items (Data.flags flags) h = Sends->> (Sends-plain (codes "* FLAGS (") refl) (
      Sends->> (Sends-join IsEncodableFlag flags (codes " ") Sends-flag refl h)
        (Sends-plain (codes ")") refl))
  Sends-data_items (Data.exists count) h =
      Sends->> (Sends-plain (codes "* ") refl)
        (Sends->> (Sends-number count) (Sends-plain (codes " EXISTS") refl))
  Sends-data_items (Data.recent count) h =
      Sends->> (Sends-plain (codes "* ") refl)
        (Sends->> (Sends-number count) (Sends-plain (codes " RECENT") refl))
  Sends-data_items (Data.expunge count) h =
      Sends->> (Sends-plain (codes "* ") refl)
        (Sends->> (Sends-number count) (Sends-plain (codes " EXPUNGE") refl))
  Sends-data_items (Data.fetch seq items) h = Sends->> (Sends-plain (codes "* ") refl) (
      Sends->> (Sends-number seq) (
        Sends->> (Sends-plain (codes " FETCH (") refl) (
          Sends->> (Sends-join IsEncodableItem items.inner (codes " ") Sends-item refl h)
            (Sends-plain (codes ")") refl))))
  Sends-data_items (Data.enabled capabilities) h = Sends->> (Sends-plain (codes "* ENABLED") refl) (
      Sends-for_each IsEncodableEnable capabilities
        (λ c h. Sends->> (Sends-plain (codes " ") refl) (Sends-enable c h)) h)
  Sends-data_items (Data.quota root quotas) (h0, h1) =
      Sends->> (Sends-plain (codes "* QUOTA ") refl) (
        Sends->> (Sends-astring root h0) (
          Sends->> (Sends-plain (codes " (") refl) (
            Sends->>
              (Sends-join (λ (q : QuotaGet). IsEncodableResource q.resource) quotas.inner
                (codes " ") Sends-quota_get refl h1)
              (Sends-plain (codes ")") refl))))
  Sends-data_items (Data.quota_root mailbox roots) (h0, h1) =
      Sends->> (Sends-plain (codes "* QUOTAROOT ") refl) (
        Sends->> (Sends-mailbox mailbox h0) (
          Sends-for_each IsEncodable roots
            (λ root h. Sends->> (Sends-plain (codes " ") refl) (Sends-astring root h)) h1))
