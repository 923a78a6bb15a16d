-- ===== src/Encode/Bodies.antt =====
-- Envelopes and body structures (imap-types/src/envelope.rs, imap-types/src/body.rs) as
-- imap-codec/src/codec/encode.rs writes them.
use imap_codec.Prelude.{List, [], ◌∷◌, Bytes, Option, none, some, codes}
use imap_codec.Core.IString.{IString}
use imap_codec.Encode.Values.{encode_istring, encode_nstring, join_serializable}
use imap_codec.Encode.Writer.{Writer, ◌>>◌, write, skip, encode_number}
use imap_codec.Message.Body.{
  Parameters, BasicFields, BodyExtension, BodyExtensions, nil, cons, nstring, number, list,
  Location, Language, Disposition, SinglePartExtensionData, MultiPartExtensionData, BodyStructure,
  single, multi, SpecificFields, basic, message, text, BodyStructures,
}
use imap_codec.Message.Envelope.{Address, Envelope}

-- `List1OrNil`
unfoldable pub encode_list1_or_nil {ℓ} : {A : Type ℓ} → (A → Writer) → List A → Bytes → Writer
unfolding ◌>>◌ write join_serializable
encode_list1_or_nil encode [] sep = write (codes "NIL")
encode_list1_or_nil encode (item ∷ items) sep = do
  write (codes "(")
  join_serializable encode (item ∷ items) sep
  write (codes ")")

unfoldable pub encode_attribute_value : IString × IString → Writer
unfolding ◌>>◌ write encode_istring
encode_attribute_value (attribute, value) = do
  encode_istring attribute
  write (codes " ")
  encode_istring value

-- `List1AttributeValueOrNil`
unfoldable pub encode_parameters : Parameters → Writer
unfolding encode_list1_or_nil encode_attribute_value
encode_parameters parameters = encode_list1_or_nil encode_attribute_value parameters (codes " ")

unfoldable pub encode_address : Address → Writer
unfolding ◌>>◌ write encode_nstring
encode_address address = do
  write (codes "(")
  encode_nstring address.name
  write (codes " ")
  encode_nstring address.adl
  write (codes " ")
  encode_nstring address.mailbox
  write (codes " ")
  encode_nstring address.host
  write (codes ")")

unfoldable pub encode_addresses : List Address → Writer
unfolding encode_list1_or_nil encode_address
encode_addresses addresses = encode_list1_or_nil encode_address addresses []

unfoldable pub encode_envelope : Envelope → Writer
unfolding ◌>>◌ write encode_nstring encode_addresses
encode_envelope envelope = do
  write (codes "(")
  encode_nstring envelope.date
  write (codes " ")
  encode_nstring envelope.subject
  write (codes " ")
  encode_addresses envelope.from
  write (codes " ")
  encode_addresses envelope.sender
  write (codes " ")
  encode_addresses envelope.reply_to
  write (codes " ")
  encode_addresses envelope.to
  write (codes " ")
  encode_addresses envelope.cc_to
  write (codes " ")
  encode_addresses envelope.bcc
  write (codes " ")
  encode_nstring envelope.in_reply_to
  write (codes " ")
  encode_nstring envelope.message_id
  write (codes ")")

unfoldable pub encode_basic_fields : BasicFields → Writer
unfolding ◌>>◌ write encode_parameters encode_nstring encode_istring encode_number
encode_basic_fields fields = do
  encode_parameters fields.parameter_list
  write (codes " ")
  encode_nstring fields.id
  write (codes " ")
  encode_nstring fields.description
  write (codes " ")
  encode_istring fields.content_transfer_encoding
  write (codes " ")
  encode_number fields.size

unfoldable mutual
  unfolding ◌>>◌ write skip encode_nstring encode_number

  pub encode_body_extension : BodyExtension → Writer
  encode_body_extension (nstring value) = encode_nstring value
  encode_body_extension (number value) = encode_number value
  encode_body_extension (list extensions) = do
    write (codes "(")
    encode_body_extensions extensions
    write (codes ")")

  -- Joined by spaces.
  pub encode_body_extensions : BodyExtensions → Writer
  encode_body_extensions nil = skip
  encode_body_extensions (cons extension more) = do
    encode_body_extension extension
    encode_more_extensions more

  -- A space in front of each one.
  pub encode_more_extensions : BodyExtensions → Writer
  encode_more_extensions nil = skip
  encode_more_extensions (cons extension more) = do
    write (codes " ")
    encode_body_extension extension
    encode_more_extensions more

unfoldable pub encode_location : Location → Writer
unfolding ◌>>◌ encode_nstring encode_more_extensions
encode_location location = do
  encode_nstring location.location
  encode_more_extensions location.extensions

-- `if let Some(tail) = tail { " " tail }`
unfoldable pub encode_tail {ℓ} : {A : Type ℓ} → (A → Writer) → Option A → Writer
unfolding ◌>>◌ write skip
encode_tail encode none = skip
encode_tail encode (some tail) = do write (codes " "); encode tail

unfoldable pub encode_language : Language → Writer
unfolding ◌>>◌ encode_list1_or_nil encode_istring encode_tail encode_location
encode_language language = do
  encode_list1_or_nil encode_istring language.language (codes " ")
  encode_tail encode_location language.tail

unfoldable pub encode_disposition_fields : Option (IString × Parameters) → Writer
unfolding ◌>>◌ write encode_istring encode_parameters
encode_disposition_fields none = write (codes "NIL")
encode_disposition_fields (some (s, param)) = do
  write (codes "(")
  encode_istring s
  write (codes " ")
  encode_parameters param
  write (codes ")")

unfoldable pub encode_disposition : Disposition → Writer
unfolding ◌>>◌ encode_disposition_fields encode_tail encode_language
encode_disposition disposition = do
  encode_disposition_fields disposition.disposition
  encode_tail encode_language disposition.tail

unfoldable pub encode_single_part_extension : SinglePartExtensionData → Writer
unfolding ◌>>◌ encode_nstring encode_tail encode_disposition
encode_single_part_extension extension = do
  encode_nstring extension.md5
  encode_tail encode_disposition extension.tail

unfoldable pub encode_multi_part_extension : MultiPartExtensionData → Writer
unfolding ◌>>◌ encode_parameters encode_tail encode_disposition
encode_multi_part_extension extension = do
  encode_parameters extension.parameter_list
  encode_tail encode_disposition extension.tail

unfoldable mutual
  unfolding ◌>>◌ write skip encode_istring encode_number encode_tail encode_envelope
      encode_basic_fields encode_single_part_extension encode_multi_part_extension

  pub encode_body_structure : BodyStructure → Writer
  encode_body_structure (single fields specific extension_data) = do
    write (codes "(")
    encode_body fields specific
    encode_tail encode_single_part_extension extension_data
    write (codes ")")
  encode_body_structure (multi bodies subtype extension_data) = do
    write (codes "(")
    encode_bodies bodies
    write (codes " ")
    encode_istring subtype
    encode_tail encode_multi_part_extension extension_data
    write (codes ")")

  pub encode_body : BasicFields → SpecificFields → Writer
  encode_body fields (basic type_name subtype) = do
    encode_istring type_name
    write (codes " ")
    encode_istring subtype
    write (codes " ")
    encode_basic_fields fields
  encode_body fields (message envelope body_structure number_of_lines) = do
    write (codes "\"MESSAGE\" \"RFC822\" ")
    encode_basic_fields fields
    write (codes " ")
    encode_envelope envelope
    write (codes " ")
    encode_body_structure body_structure
    write (codes " ")
    encode_number number_of_lines
  encode_body fields (text subtype number_of_lines) = do
    write (codes "\"TEXT\" ")
    encode_istring subtype
    write (codes " ")
    encode_basic_fields fields
    write (codes " ")
    encode_number number_of_lines

  pub encode_bodies : BodyStructures → Writer
  encode_bodies nil = skip
  encode_bodies (cons body bodies) = do encode_body_structure body; encode_bodies bodies
