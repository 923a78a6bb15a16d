-- ===== src/Encode/Sends/Sections.antt =====
-- The items that FETCH asks for as parts of a message.
use imap_codec.Prelude.{
  ℕ, ◌≡◌, refl, true, List, [], ◌∷◌, Bytes, Option, none, some, codes, all, All,
}
use imap_codec.Core.AString.{AString}
use imap_codec.Core.VecN.{Vec1}
use imap_codec.Encode.Values.{encode_astring, join_serializable}
use imap_codec.Encode.Strings.{IsEncodable}
use imap_codec.Encode.Settled.{is_plain}
use imap_codec.Encode.Writer.{Writer, ◌>>◌, write, if_some, encode_number}
use imap_codec.Encode.Items.{
  encode_uid_element, encode_uid_set, encode_macro, encode_part, encode_in_part, encode_section,
  encode_partial, encode_item_name, encode_item_names, encode_macro_or_names,
}
use imap_codec.Encode.Sends.{
  Sends, Sends->>, Sends-plain, Sends-skip, Sends-number, Sends-if, Sends-if_some, IfSome,
  Sends-join,
}
use imap_codec.Encode.Sends.Strings.{Sends-astring}
use imap_codec.Encode.Sends.Sets.{All-Unit}
use imap_codec.Message.Extensions.{UidElement, single, range, UidSet}
use imap_codec.Message.Fetch
use imap_codec.Message.Fetch.{
  Macro, Part, Section, part, header, header_fields, header_fields_not, text, mime,
  MessageDataItemName, MacroOrMessageDataItemNames, macro_name, message_data_item_names,
}

Sends-uid_element : (e : UidElement) → Sends (encode_uid_element e)
unfolding encode_uid_element
Sends-uid_element (single uid) = Sends-number uid
Sends-uid_element (range start end) =
    Sends->> (Sends-number start) (Sends->> (Sends-plain (codes ":") refl) (Sends-number end))

pub Sends-uid_set : (set : UidSet) → Sends (encode_uid_set set)
unfolding encode_uid_set
Sends-uid_set set =
    Sends-join (λ _. Unit {0}) set.inner.inner (codes ",") (λ e _. Sends-uid_element e) refl
      (All-Unit set.inner.inner)

-- Numbers joined by a separator.
pub Sends-numbers :
    (numbers : List ℕ) (sep : Bytes)
    → all is_plain sep ≡ true
    → Sends (join_serializable encode_number numbers sep)
Sends-numbers numbers sep plain =
    Sends-join (λ _. Unit {0}) numbers sep (λ n _. Sends-number n) plain (All-Unit numbers)

Sends-macro : (m : Macro) → Sends (encode_macro m)
unfolding encode_macro Fetch.display
Sends-macro Macro.all = Sends-plain (codes "ALL") refl
Sends-macro Macro.fast = Sends-plain (codes "FAST") refl
Sends-macro Macro.full = Sends-plain (codes "FULL") refl

Sends-part : (p : Part) → Sends (encode_part p)
unfolding encode_part
Sends-part p = Sends-numbers p.inner.inner (codes ".") refl

Sends-in_part :
    (p : Option Part) (name : Bytes) → all is_plain name ≡ true → Sends (encode_in_part p name)
unfolding encode_in_part
Sends-in_part none name h = Sends-plain name h
Sends-in_part (some p) name h =
    Sends->> (Sends-part p) (Sends->> (Sends-plain (codes ".") refl) (Sends-plain name h))

-- The strings in a section are those that their types allow.
abbrev pub IsEncodableSection : Section → Type 0
IsEncodableSection (header_fields p headers) = All IsEncodable headers.inner
IsEncodableSection (header_fields_not p headers) = All IsEncodable headers.inner
IsEncodableSection _ = Unit

Sends-headers :
    (p : Option Part) (name : Bytes) (headers : Vec1 AString)
    → all is_plain name ≡ true
    → All IsEncodable headers.inner
    → Sends (
        encode_in_part p name
        >> (join_serializable encode_astring headers.inner (codes " ") >> write (codes ")")))
Sends-headers p name headers plain h = Sends->> (Sends-in_part p name plain) (
    Sends->> (Sends-join IsEncodable headers.inner (codes " ") Sends-astring refl h)
      (Sends-plain (codes ")") refl))

pub Sends-section : (s : Section) → IsEncodableSection s → Sends (encode_section s)
unfolding encode_section
Sends-section (part p) h = Sends-part p
Sends-section (header p) h = Sends-in_part p (codes "HEADER") refl
Sends-section (header_fields p headers) h = Sends-headers p (codes "HEADER.FIELDS (") headers refl h
Sends-section (header_fields_not p headers) h =
    Sends-headers p (codes "HEADER.FIELDS.NOT (") headers refl h
Sends-section (text p) h = Sends-in_part p (codes "TEXT") refl
Sends-section (mime p) h = Sends->> (Sends-part p) (Sends-plain (codes ".MIME") refl)

Sends-partial : (partial : ℕ × ℕ) → Sends (encode_partial partial)
unfolding encode_partial
Sends-partial (a, b) = Sends->> (Sends-plain (codes "<") refl) (
    Sends->> (Sends-number a) (
      Sends->> (Sends-plain (codes ".") refl)
        (Sends->> (Sends-number b) (Sends-plain (codes ">") refl))))

Sends-maybe_partial : (partial : Option (ℕ × ℕ)) → Sends (if_some partial encode_partial)
unfolding if_some
Sends-maybe_partial none = Sends-skip
Sends-maybe_partial (some p) = Sends-partial p

abbrev pub IsEncodableItemName : MessageDataItemName → Type 0
IsEncodableItemName (MessageDataItemName.body_ext part_section partial peek) =
    IfSome IsEncodableSection part_section
IsEncodableItemName _ = Unit

pub Sends-item_name : (n : MessageDataItemName) → IsEncodableItemName n → Sends (encode_item_name n)
unfolding encode_item_name
Sends-item_name MessageDataItemName.body h = Sends-plain (codes "BODY") refl
Sends-item_name (MessageDataItemName.body_ext part_section partial peek) h =
    Sends->>
      (Sends-if peek (Sends-plain (codes "BODY.PEEK[") refl) (Sends-plain (codes "BODY[") refl))
      (Sends->> (Sends-if_some IsEncodableSection part_section Sends-section h)
        (Sends->> (Sends-plain (codes "]") refl) (Sends-maybe_partial partial)))
Sends-item_name MessageDataItemName.body_structure h = Sends-plain (codes "BODYSTRUCTURE") refl
Sends-item_name MessageDataItemName.envelope h = Sends-plain (codes "ENVELOPE") refl
Sends-item_name MessageDataItemName.flags h = Sends-plain (codes "FLAGS") refl
Sends-item_name MessageDataItemName.internal_date h = Sends-plain (codes "INTERNALDATE") refl
Sends-item_name MessageDataItemName.rfc822 h = Sends-plain (codes "RFC822") refl
Sends-item_name MessageDataItemName.rfc822_header h = Sends-plain (codes "RFC822.HEADER") refl
Sends-item_name MessageDataItemName.rfc822_size h = Sends-plain (codes "RFC822.SIZE") refl
Sends-item_name MessageDataItemName.rfc822_text h = Sends-plain (codes "RFC822.TEXT") refl
Sends-item_name MessageDataItemName.uid h = Sends-plain (codes "UID") refl
Sends-item_name (MessageDataItemName.binary numbers partial peek) h =
    Sends->> (Sends-plain (codes "BINARY") refl) (
      Sends->> (Sends-if peek (Sends-plain (codes ".PEEK") refl) Sends-skip) (
        Sends->> (Sends-plain (codes "[") refl) (
          Sends->> (Sends-numbers numbers (codes ".") refl)
            (Sends->> (Sends-plain (codes "]") refl) (Sends-maybe_partial partial)))))
Sends-item_name (MessageDataItemName.binary_size numbers) h =
    Sends->> (Sends-plain (codes "BINARY.SIZE") refl) (
      Sends->> (Sends-plain (codes "[") refl)
        (Sends->> (Sends-numbers numbers (codes ".") refl) (Sends-plain (codes "]") refl)))

-- A list in parentheses, joined by spaces.
pub Sends-list {ℓ κ} :
    {A : Type ℓ} (P : A → Type κ) {encode : A → Writer} (start : Bytes) (items : List A)
    → all is_plain start ≡ true
    → ((item : A) → P item → Sends (encode item))
    → All P items
    → Sends (write start >> (join_serializable encode items (codes " ") >> write (codes ")")))
Sends-list P start items plain each h =
    Sends->> (Sends-plain start plain)
      (Sends->> (Sends-join P items (codes " ") each refl h) (Sends-plain (codes ")") refl))

abbrev pub IsEncodableMacroOrNames : MacroOrMessageDataItemNames → Type 0
IsEncodableMacroOrNames (macro_name m) = Unit
IsEncodableMacroOrNames (message_data_item_names names) = All IsEncodableItemName names

Sends-item_names :
    (names : List MessageDataItemName)
    → All IsEncodableItemName names
    → Sends (encode_item_names names)
unfolding encode_item_names
Sends-item_names [] h = Sends-list IsEncodableItemName (codes "(") [] refl Sends-item_name h
Sends-item_names (name ∷ []) h = Sends-item_name name h.0
Sends-item_names (name ∷ next ∷ names) h =
    Sends-list IsEncodableItemName (codes "(") (name ∷ next ∷ names) refl Sends-item_name h

pub Sends-macro_or_names :
    (m : MacroOrMessageDataItemNames) → IsEncodableMacroOrNames m → Sends (encode_macro_or_names m)
unfolding encode_macro_or_names
Sends-macro_or_names (macro_name m) h = Sends-macro m
Sends-macro_or_names (message_data_item_names names) h = Sends-item_names names h
