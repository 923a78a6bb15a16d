-- ===== src/Message/Fetch.antt =====
-- imap-types/src/fetch.rs: what is asked for by FETCH.
use imap_codec.Prelude.{ℕ, Bool, List, [], ◌∷◌, Bytes, codes, Option}
use imap_codec.Core.AString.{AString}
use imap_codec.Core.VecN.{Vec1}

pub data Macro : Type 0 where
  fast : Macro
  all : Macro
  full : Macro

-- `Display`
unfoldable pub display : Macro → Bytes
display all = codes "ALL"
display fast = codes "FAST"
display full = codes "FULL"

pub record Part : Type 0 where
  pub inner : Vec1 ℕ

pub data Section : Type 0 where
  part : Part → Section
  header : Option Part → Section
  header_fields : Option Part → Vec1 AString → Section
  header_fields_not : Option Part → Vec1 AString → Section
  text : Option Part → Section
  mime : Part → Section

pub data MessageDataItemName : Type 0 where
  body : MessageDataItemName
  body_ext :
      (part_section : Option Section) (partial : Option (ℕ × ℕ)) (peek : Bool) → MessageDataItemName
  body_structure : MessageDataItemName
  envelope : MessageDataItemName
  flags : MessageDataItemName
  internal_date : MessageDataItemName
  rfc822 : MessageDataItemName
  rfc822_header : MessageDataItemName
  rfc822_size : MessageDataItemName
  rfc822_text : MessageDataItemName
  uid : MessageDataItemName
  binary : (numbers : List ℕ) (partial : Option (ℕ × ℕ)) (peek : Bool) → MessageDataItemName
  binary_size : (numbers : List ℕ) → MessageDataItemName

unfoldable pub expand : Macro → List MessageDataItemName
expand all = flags ∷ internal_date ∷ rfc822_size ∷ envelope ∷ []
expand fast = flags ∷ internal_date ∷ rfc822_size ∷ []
expand full = flags ∷ internal_date ∷ rfc822_size ∷ envelope ∷ body ∷ []

pub data MacroOrMessageDataItemNames : Type 0 where
  macro_name : Macro → MacroOrMessageDataItemNames
  message_data_item_names : List MessageDataItemName → MacroOrMessageDataItemNames
