-- ===== src/Encode/Sends/Bodies.antt =====
-- Envelopes and body structures as parts of a message.
use imap_codec.Prelude.{◌≡◌, refl, true, List, [], ◌∷◌, Bytes, Option, none, some, codes, all, All}
use imap_codec.Core.IString.{IString}
use imap_codec.Encode.Settled.{is_plain}
use imap_codec.Encode.Writer.{Writer, ◌>>◌, write}
use imap_codec.Encode.Bodies.{
  encode_list1_or_nil, encode_attribute_value, encode_parameters, encode_address, encode_addresses,
  encode_envelope, encode_basic_fields, encode_body_extension, encode_body_extensions,
  encode_more_extensions, encode_location, encode_tail, encode_language, encode_disposition_fields,
  encode_disposition, encode_single_part_extension, encode_multi_part_extension,
  encode_body_structure, encode_body, encode_bodies,
}
use imap_codec.Encode.Sends.{
  Sends, Sends->>, Sends-plain, Sends-skip, Sends-number, IfSome, Sends-join,
}
use imap_codec.Encode.Sends.Strings.{
  IsEncodableIString, IsEncodableNString, Sends-istring, Sends-nstring,
}
use imap_codec.Message.Body.{
  Parameters, BasicFields, BodyExtension, BodyExtensions, nil, cons, nstring, number, list,
  Location, Language, Disposition, SinglePartExtensionData, MultiPartExtensionData, BodyStructure,
  single, multi, SpecificFields, basic, message, text, BodyStructures,
}
use imap_codec.Message.Envelope.{Address, Envelope}

-- A space and what follows.
spaced : {writer : Writer} → Sends writer → Sends (write (codes " ") >> writer)
spaced s = Sends->> (Sends-plain (codes " ") refl) s

-- What follows stands between parentheses.
closed : {writer : Writer} → Sends writer → Sends (writer >> write (codes ")"))
closed s = Sends->> s (Sends-plain (codes ")") refl)

Sends-list1_or_nil {ℓ κ} :
    {A : Type ℓ} (P : A → Type κ) {encode : A → Writer} (items : List A) (sep : Bytes)
    → ((item : A) → P item → Sends (encode item))
    → all is_plain sep ≡ true
    → All P items
    → Sends (encode_list1_or_nil encode items sep)
unfolding encode_list1_or_nil
Sends-list1_or_nil P [] sep each plain h = Sends-plain (codes "NIL") refl
Sends-list1_or_nil P (item ∷ items) sep each plain h =
    Sends->> (Sends-plain (codes "(") refl) (closed (Sends-join P (item ∷ items) sep each plain h))

abbrev IsEncodablePair : IString × IString → Type 0
IsEncodablePair pair = IsEncodableIString pair.0 × IsEncodableIString pair.1

Sends-attribute_value :
    (pair : IString × IString) → IsEncodablePair pair → Sends (encode_attribute_value pair)
unfolding encode_attribute_value
Sends-attribute_value (attribute, value) (ha, hv) =
    Sends->> (Sends-istring attribute ha) (spaced (Sends-istring value hv))

Sends-parameters : (ps : Parameters) → All IsEncodablePair ps → Sends (encode_parameters ps)
unfolding encode_parameters
Sends-parameters ps h =
    Sends-list1_or_nil IsEncodablePair ps (codes " ") Sends-attribute_value refl h

-- The strings of a value are those that their types allow.
pub record IsEncodableAddress (a : Address) : Type 0 where
  pub name : IsEncodableNString a.name
  pub adl : IsEncodableNString a.adl
  pub mailbox : IsEncodableNString a.mailbox
  pub host : IsEncodableNString a.host

Sends-address : (a : Address) → IsEncodableAddress a → Sends (encode_address a)
unfolding encode_address
Sends-address a h = Sends->> (Sends-plain (codes "(") refl) (
    Sends->> (Sends-nstring a.name h.name) (
      spaced (
        Sends->> (Sends-nstring a.adl h.adl) (
          spaced (
            Sends->> (Sends-nstring a.mailbox h.mailbox)
              (spaced (closed (Sends-nstring a.host h.host))))))))

Sends-addresses :
    (list1 : List Address) → All IsEncodableAddress list1 → Sends (encode_addresses list1)
unfolding encode_addresses
Sends-addresses list1 h = Sends-list1_or_nil IsEncodableAddress list1 [] Sends-address refl h

pub record IsEncodableEnvelope (e : Envelope) : Type 0 where
  pub date : IsEncodableNString e.date
  pub subject : IsEncodableNString e.subject
  pub from : All IsEncodableAddress e.from
  pub sender : All IsEncodableAddress e.sender
  pub reply_to : All IsEncodableAddress e.reply_to
  pub to : All IsEncodableAddress e.to
  pub cc_to : All IsEncodableAddress e.cc_to
  pub bcc : All IsEncodableAddress e.bcc
  pub in_reply_to : IsEncodableNString e.in_reply_to
  pub message_id : IsEncodableNString e.message_id

pub Sends-envelope : (e : Envelope) → IsEncodableEnvelope e → Sends (encode_envelope e)
unfolding encode_envelope
Sends-envelope e h =
    let ids =
      Sends->> (Sends-nstring e.in_reply_to h.in_reply_to)
        (spaced (closed (Sends-nstring e.message_id h.message_id))) in
    let receivers = Sends->> (Sends-addresses e.to h.to) (
      spaced (
        Sends->> (Sends-addresses e.cc_to h.cc_to)
          (spaced (Sends->> (Sends-addresses e.bcc h.bcc) (spaced ids))))) in
    let senders = Sends->> (Sends-addresses e.from h.from) (
      spaced (
        Sends->> (Sends-addresses e.sender h.sender)
          (spaced (Sends->> (Sends-addresses e.reply_to h.reply_to) (spaced receivers))))) in
    Sends->> (Sends-plain (codes "(") refl) (
      Sends->> (Sends-nstring e.date h.date)
        (spaced (Sends->> (Sends-nstring e.subject h.subject) (spaced senders))))

pub record IsEncodableBasic (b : BasicFields) : Type 0 where
  pub parameter_list : All IsEncodablePair b.parameter_list
  pub id : IsEncodableNString b.id
  pub description : IsEncodableNString b.description
  pub content_transfer_encoding : IsEncodableIString b.content_transfer_encoding

Sends-basic_fields : (b : BasicFields) → IsEncodableBasic b → Sends (encode_basic_fields b)
unfolding encode_basic_fields
Sends-basic_fields b h = Sends->> (Sends-parameters b.parameter_list h.parameter_list) (
    spaced (
      Sends->> (Sends-nstring b.id h.id) (
        spaced (
          Sends->> (Sends-nstring b.description h.description) (
            spaced (
              Sends->> (Sends-istring b.content_transfer_encoding h.content_transfer_encoding)
                (spaced (Sends-number b.size))))))))

abbrev mutual
  pub IsEncodableExtension : BodyExtension → Type 0
  IsEncodableExtension (nstring value) = IsEncodableNString value
  IsEncodableExtension (number value) = Unit
  IsEncodableExtension (list extensions) = IsEncodableExtensions extensions

  pub IsEncodableExtensions : BodyExtensions → Type 0
  IsEncodableExtensions nil = Unit
  IsEncodableExtensions (cons extension more) =
      IsEncodableExtension extension × IsEncodableExtensions more

mutual
  unfolding encode_body_extension encode_body_extensions encode_more_extensions

  Sends-body_extension :
      (e : BodyExtension) → IsEncodableExtension e → Sends (encode_body_extension e)
  Sends-body_extension (nstring value) h = Sends-nstring value h
  Sends-body_extension (number value) h = Sends-number value
  Sends-body_extension (list extensions) h =
      Sends->> (Sends-plain (codes "(") refl) (closed (Sends-body_extensions extensions h))

  Sends-body_extensions :
      (es : BodyExtensions) → IsEncodableExtensions es → Sends (encode_body_extensions es)
  Sends-body_extensions nil h = Sends-skip
  Sends-body_extensions (cons extension more) (he, h) =
      Sends->> (Sends-body_extension extension he) (Sends-more_extensions more h)

  Sends-more_extensions :
      (es : BodyExtensions) → IsEncodableExtensions es → Sends (encode_more_extensions es)
  Sends-more_extensions nil h = Sends-skip
  Sends-more_extensions (cons extension more) (he, h) =
      spaced (Sends->> (Sends-body_extension extension he) (Sends-more_extensions more h))

Sends-tail {ℓ κ} :
    {A : Type ℓ} (P : A → Type κ) {encode : A → Writer} (tail : Option A)
    → ((value : A) → P value → Sends (encode value))
    → IfSome P tail
    → Sends (encode_tail encode tail)
unfolding encode_tail
Sends-tail P none each h = Sends-skip
Sends-tail P (some tail) each h = spaced (each tail h)

abbrev IsEncodableLocation : Location → Type 0
IsEncodableLocation l = IsEncodableNString l.location × IsEncodableExtensions l.extensions

Sends-location : (l : Location) → IsEncodableLocation l → Sends (encode_location l)
unfolding encode_location
Sends-location l (hl, he) =
    Sends->> (Sends-nstring l.location hl) (Sends-more_extensions l.extensions he)

abbrev IsEncodableLanguage : Language → Type 0
IsEncodableLanguage l = All IsEncodableIString l.language × IfSome IsEncodableLocation l.tail

Sends-language : (l : Language) → IsEncodableLanguage l → Sends (encode_language l)
unfolding encode_language
Sends-language l (hl, ht) =
    Sends->> (Sends-list1_or_nil IsEncodableIString l.language (codes " ") Sends-istring refl hl)
      (Sends-tail IsEncodableLocation l.tail Sends-location ht)

abbrev IsEncodableFields : IString × Parameters → Type 0
IsEncodableFields fields = IsEncodableIString fields.0 × All IsEncodablePair fields.1

Sends-disposition_fields :
    (fields : Option (IString × Parameters))
    → IfSome IsEncodableFields fields
    → Sends (encode_disposition_fields fields)
unfolding encode_disposition_fields
Sends-disposition_fields none h = Sends-plain (codes "NIL") refl
Sends-disposition_fields (some (s, param)) (hs, hp) =
    Sends->> (Sends-plain (codes "(") refl)
      (Sends->> (Sends-istring s hs) (spaced (closed (Sends-parameters param hp))))

abbrev IsEncodableDisposition : Disposition → Type 0
IsEncodableDisposition d =
    IfSome IsEncodableFields d.disposition × IfSome IsEncodableLanguage d.tail

Sends-disposition : (d : Disposition) → IsEncodableDisposition d → Sends (encode_disposition d)
unfolding encode_disposition
Sends-disposition d (hd, ht) =
    Sends->> (Sends-disposition_fields d.disposition hd)
      (Sends-tail IsEncodableLanguage d.tail Sends-language ht)

abbrev IsEncodableSinglePart : SinglePartExtensionData → Type 0
IsEncodableSinglePart e = IsEncodableNString e.md5 × IfSome IsEncodableDisposition e.tail

Sends-single_part_extension :
    (e : SinglePartExtensionData) → IsEncodableSinglePart e → Sends (encode_single_part_extension e)
unfolding encode_single_part_extension
Sends-single_part_extension e (hm, ht) =
    Sends->> (Sends-nstring e.md5 hm)
      (Sends-tail IsEncodableDisposition e.tail Sends-disposition ht)

abbrev IsEncodableMultiPart : MultiPartExtensionData → Type 0
IsEncodableMultiPart e = All IsEncodablePair e.parameter_list × IfSome IsEncodableDisposition e.tail

Sends-multi_part_extension :
    (e : MultiPartExtensionData) → IsEncodableMultiPart e → Sends (encode_multi_part_extension e)
unfolding encode_multi_part_extension
Sends-multi_part_extension e (hp, ht) =
    Sends->> (Sends-parameters e.parameter_list hp)
      (Sends-tail IsEncodableDisposition e.tail Sends-disposition ht)

abbrev mutual
  pub IsEncodableStructure : BodyStructure → Type 0
  IsEncodableStructure (single fields specific extension_data) =
      IsEncodableBasic fields
      × IsEncodableSpecific specific
      × IfSome IsEncodableSinglePart extension_data
  IsEncodableStructure (multi bodies subtype extension_data) =
      IsEncodableStructures bodies
      × IsEncodableIString subtype
      × IfSome IsEncodableMultiPart extension_data

  pub IsEncodableSpecific : SpecificFields → Type 0
  IsEncodableSpecific (basic type_name subtype) =
      IsEncodableIString type_name × IsEncodableIString subtype
  IsEncodableSpecific (message envelope body_structure number_of_lines) =
      IsEncodableEnvelope envelope × IsEncodableStructure body_structure
  IsEncodableSpecific (text subtype number_of_lines) = IsEncodableIString subtype

  pub IsEncodableStructures : BodyStructures → Type 0
  IsEncodableStructures nil = Unit
  IsEncodableStructures (cons body bodies) =
      IsEncodableStructure body × IsEncodableStructures bodies

mutual
  unfolding encode_body_structure encode_body encode_bodies

  Sends-structure : (b : BodyStructure) → IsEncodableStructure b → Sends (encode_body_structure b)
  Sends-structure (single fields specific extension_data) (hf, hs, he) =
      Sends->> (Sends-plain (codes "(") refl) (
        Sends->> (Sends-body specific fields hf hs)
          (closed (Sends-tail IsEncodableSinglePart extension_data Sends-single_part_extension he)))
  Sends-structure (multi bodies subtype extension_data) (hb, hs, he) =
      Sends->> (Sends-plain (codes "(") refl) (
        Sends->> (Sends-bodies bodies hb) (
          spaced (
            Sends->> (Sends-istring subtype hs) (
              closed
                (Sends-tail IsEncodableMultiPart extension_data Sends-multi_part_extension he)))))

  Sends-body :
      (specific : SpecificFields) (fields : BasicFields)
      → IsEncodableBasic fields
      → IsEncodableSpecific specific
      → Sends (encode_body fields specific)
  Sends-body (basic type_name subtype) fields hf (ht, hs) =
      Sends->> (Sends-istring type_name ht)
        (spaced (Sends->> (Sends-istring subtype hs) (spaced (Sends-basic_fields fields hf))))
  Sends-body (message envelope body_structure number_of_lines) fields hf (he, hb) =
      Sends->> (Sends-plain (codes "\"MESSAGE\" \"RFC822\" ") refl) (
        Sends->> (Sends-basic_fields fields hf) (
          spaced (
            Sends->> (Sends-envelope envelope he) (
              spaced (
                Sends->> (Sends-structure body_structure hb)
                  (spaced (Sends-number number_of_lines)))))))
  Sends-body (text subtype number_of_lines) fields hf hs =
      Sends->> (Sends-plain (codes "\"TEXT\" ") refl) (
        Sends->> (Sends-istring subtype hs) (
          spaced (Sends->> (Sends-basic_fields fields hf) (spaced (Sends-number number_of_lines)))))

  Sends-bodies : (bs : BodyStructures) → IsEncodableStructures bs → Sends (encode_bodies bs)
  Sends-bodies nil h = Sends-skip
  Sends-bodies (cons body bodies) (hb, h) =
      Sends->> (Sends-structure body hb) (Sends-bodies bodies h)

-- A body structure, in whatever depth it is nested.
pub Sends-body_structure :
    (b : BodyStructure) → IsEncodableStructure b → Sends (encode_body_structure b)
Sends-body_structure b h = Sends-structure b h
