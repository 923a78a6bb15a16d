-- ===== src/Encode/Sends/Codes.antt =====
-- Flags, capabilities and response codes as parts of a message.
use imap_codec.Prelude.{
  ◌≡◌, ◌∙◌, refl, ap, true, List, [], ◌∷◌, ◌++◌, Bytes, Option, none, some, codes, all, All, ◌==◌,
  Bool-cases, inl, inr, append_assoc,
}
use imap_codec.Indicators.{is_text_char}
use imap_codec.Core.Charset.{Charset}
use imap_codec.Core.QuotedChar.{QuotedChar}
use imap_codec.Escape.{escape_quoted, backslash, quote}
use imap_codec.Escape.Quoted.{escape_quoted-escaped}
use imap_codec.Encode.Context.{EncodeContext, write_all}
use imap_codec.Encode.Settled.{is_plain, Settled-quoted}
use imap_codec.Encode.Writes.{text_write, write_to}
use imap_codec.Encode.Writer.{◌>>◌, write}
use imap_codec.Encode.Codes.{
  encode_flag_fetch, encode_flag_perm, encode_name_attribute, encode_quoted_char, encode_delimiter,
  encode_status_item, encode_nstring8, encode_capability, encode_allowed_charsets, encode_code,
}
use imap_codec.Encode.Sends.{
  Sends, Sends->>, Sends-plain, Sends-number, Sends-join, Sends-write_to, IfSome,
}
use imap_codec.Encode.Sends.Strings.{
  IsEncodableAtom, IsEncodableCharset, IsEncodableNString, Sends-charset, Sends-nstring,
}
use imap_codec.Encode.Sends.Sets.{plain-append}
use imap_codec.Encode.Sends.Items.{
  plain_atom, IsEncodableFlag, Sends-flag, IsEncodableLiteral8, Sends-literal8,
  IsEncodableMechanism, plain_mechanism, IsEncodableResource, plain_resource, IsEncodableThreading,
  plain_threading,
}
use imap_codec.Encode.Sends.Sections.{Sends-uid_set, Sends-list}
use imap_codec.Message.Auth
use imap_codec.Message.Extensions.{
  NString8, nstring, literal8, deflate, display_compression, display_resource, SortAlgorithm,
  display_sort_algorithm, display_threading,
}
use imap_codec.Message.Flag.{
  FlagFetch, FlagPerm, asterisk, FlagNameAttribute, display_name_attribute,
}
use imap_codec.Message.Response
use imap_codec.Message.Response.{Capability, Code}
use imap_codec.Message.StatusItems.{StatusDataItem}

abbrev pub IsEncodableFlagFetch : FlagFetch → Type 0
IsEncodableFlagFetch (FlagFetch.flag flag) = IsEncodableFlag flag
IsEncodableFlagFetch FlagFetch.recent = Unit

pub Sends-flag_fetch : (f : FlagFetch) → IsEncodableFlagFetch f → Sends (encode_flag_fetch f)
unfolding encode_flag_fetch
Sends-flag_fetch (FlagFetch.flag flag) h = Sends-flag flag h
Sends-flag_fetch FlagFetch.recent h = Sends-plain (codes "\\Recent") refl

abbrev pub IsEncodableFlagPerm : FlagPerm → Type 0
IsEncodableFlagPerm (FlagPerm.flag flag) = IsEncodableFlag flag
IsEncodableFlagPerm asterisk = Unit

pub Sends-flag_perm : (f : FlagPerm) → IsEncodableFlagPerm f → Sends (encode_flag_perm f)
unfolding encode_flag_perm
Sends-flag_perm (FlagPerm.flag flag) h = Sends-flag flag h
Sends-flag_perm asterisk h = Sends-plain (codes "\\*") refl

abbrev pub IsEncodableAttribute : FlagNameAttribute → Type 0
IsEncodableAttribute (FlagNameAttribute.extension a) = IsEncodableAtom a
IsEncodableAttribute _ = Unit

plain_attribute :
    (a : FlagNameAttribute)
    → IsEncodableAttribute a
    → all is_plain (display_name_attribute a) ≡ true
unfolding display_name_attribute
plain_attribute (FlagNameAttribute.extension a) h = plain_atom a h
plain_attribute _ h = refl

pub Sends-name_attribute :
    (a : FlagNameAttribute) → IsEncodableAttribute a → Sends (encode_name_attribute a)
unfolding encode_name_attribute
Sends-name_attribute a h = Sends-plain (display_name_attribute a) (plain_attribute a h)

-- A character that a quoted string can hold.
abbrev pub IsEncodableDelimiter : QuotedChar → Type 0
IsEncodableDelimiter char = is_text_char char.inner ≡ true

quoted_char-escaped :
    (char : QuotedChar) (ctx : EncodeContext)
    → encode_quoted_char char ctx ≡ write_all ctx (escape_quoted (char.inner ∷ []))
unfolding encode_quoted_char write write_all
quoted_char-escaped char ctx =
    rw (escape_quoted-escaped (char.inner ∷ [])) (elim (Bool-cases (char.inner == backslash)) [
      | inl e ↦ rw e
      | inr e ↦ rw e (elim (Bool-cases (char.inner == quote)) [ inl e' ↦ rw e' | inr e' ↦ rw e' ])
    ])

delimiter-quoted :
    (char : QuotedChar) (ctx : EncodeContext)
    → encode_delimiter (some char) ctx
      ≡ write_to (text_write (codes "\"" ++ (escape_quoted (char.inner ∷ []) ++ codes "\""))) ctx
unfolding encode_delimiter ◌>>◌ write write_to write_all
delimiter-quoted char ctx =
    let text = escape_quoted (char.inner ∷ []) in
    ap (λ (c : EncodeContext). write_all c (codes "\""))
      (quoted_char-escaped char (write_all ctx (codes "\"")))
    ∙ ap (λ (t : Bytes). record ctx { accumulator = t })
        (append_assoc (ctx.accumulator ++ codes "\"") text (codes "\"")
          ∙ append_assoc ctx.accumulator (codes "\"") (text ++ codes "\""))

pub Sends-delimiter :
    (d : Option QuotedChar) → IfSome IsEncodableDelimiter d → Sends (encode_delimiter d)
Sends-delimiter none h = unfold encode_delimiter in Sends-plain (codes "NIL") refl
Sends-delimiter (some char) h =
    Sends-write_to (text_write (codes "\"" ++ (escape_quoted (char.inner ∷ []) ++ codes "\"")))
      (delimiter-quoted char) (Settled-quoted (char.inner ∷ []) (h, tt))

pub Sends-status_item : (i : StatusDataItem) → Sends (encode_status_item i)
unfolding encode_status_item
Sends-status_item (StatusDataItem.messages n) =
    Sends->> (Sends-plain (codes "MESSAGES ") refl) (Sends-number n)
Sends-status_item (StatusDataItem.recent n) =
    Sends->> (Sends-plain (codes "RECENT ") refl) (Sends-number n)
Sends-status_item (StatusDataItem.uid_next n) =
    Sends->> (Sends-plain (codes "UIDNEXT ") refl) (Sends-number n)
Sends-status_item (StatusDataItem.uid_validity n) =
    Sends->> (Sends-plain (codes "UIDVALIDITY ") refl) (Sends-number n)
Sends-status_item (StatusDataItem.unseen n) =
    Sends->> (Sends-plain (codes "UNSEEN ") refl) (Sends-number n)
Sends-status_item (StatusDataItem.deleted n) =
    Sends->> (Sends-plain (codes "DELETED ") refl) (Sends-number n)
Sends-status_item (StatusDataItem.deleted_storage n) =
    Sends->> (Sends-plain (codes "DELETED-STORAGE ") refl) (Sends-number n)

abbrev pub IsEncodableNString8 : NString8 → Type 0
IsEncodableNString8 (nstring value) = IsEncodableNString value
IsEncodableNString8 (literal8 value) = IsEncodableLiteral8 value

pub Sends-nstring8 : (s : NString8) → IsEncodableNString8 s → Sends (encode_nstring8 s)
unfolding encode_nstring8
Sends-nstring8 (nstring value) h = Sends-nstring value h
Sends-nstring8 (literal8 value) h = Sends-literal8 value h

-- The atoms in a capability are those that their types allow.
abbrev pub IsEncodableCapability : Capability → Type 0
IsEncodableCapability (Capability.auth mechanism) = IsEncodableMechanism mechanism
IsEncodableCapability (Capability.quota_res resource) = IsEncodableResource resource
IsEncodableCapability (Capability.sort (some (SortAlgorithm.other a))) = IsEncodableAtom a
IsEncodableCapability (Capability.thread algorithm) = IsEncodableThreading algorithm
IsEncodableCapability (Capability.other a) = IsEncodableAtom a
IsEncodableCapability _ = Unit

plain_capability :
    (c : Capability) → IsEncodableCapability c → all is_plain (Response.display c) ≡ true
unfolding Response.display display_compression display_sort_algorithm
plain_capability (Capability.auth mechanism) h =
    plain-append (codes "AUTH=") (Auth.as_ref mechanism) refl (plain_mechanism mechanism h)
plain_capability (Capability.compress deflate) h = refl
plain_capability (Capability.quota_res resource) h =
    plain-append (codes "QUOTA=RES-") (display_resource resource) refl (plain_resource resource h)
plain_capability (Capability.sort none) h = refl
plain_capability (Capability.sort (some SortAlgorithm.display)) h = refl
plain_capability (Capability.sort (some (SortAlgorithm.other a))) h =
    plain-append (codes "SORT=") a.inner refl (plain_atom a h)
plain_capability (Capability.thread algorithm) h =
    plain-append (codes "THREAD=") (display_threading algorithm) refl (plain_threading algorithm h)
plain_capability (Capability.other a) h = plain_atom a h
plain_capability _ h = refl

pub Sends-capability : (c : Capability) → IsEncodableCapability c → Sends (encode_capability c)
unfolding encode_capability
Sends-capability c h = Sends-plain (Response.display c) (plain_capability c h)

Sends-allowed_charsets :
    (cs : List Charset) → All IsEncodableCharset cs → Sends (encode_allowed_charsets cs)
unfolding encode_allowed_charsets
Sends-allowed_charsets [] h = Sends-plain (codes "BADCHARSET") refl
Sends-allowed_charsets (c ∷ cs) h =
    Sends-list IsEncodableCharset (codes "BADCHARSET (") (c ∷ cs) refl Sends-charset h

-- The values in a code are those that their types allow, and an unknown code has no line end and no
-- opening brace.
abbrev pub IsEncodableCode : Code → Type 0
IsEncodableCode Code.alert = Unit
IsEncodableCode (Code.bad_charset allowed) = All IsEncodableCharset allowed
IsEncodableCode (Code.capability caps) = All IsEncodableCapability caps.inner
IsEncodableCode Code.parse = Unit
IsEncodableCode (Code.permanent_flags flags) = All IsEncodableFlagPerm flags
IsEncodableCode Code.read_only = Unit
IsEncodableCode Code.read_write = Unit
IsEncodableCode Code.try_create = Unit
IsEncodableCode (Code.uid_next next_uid) = Unit
IsEncodableCode (Code.uid_validity validity) = Unit
IsEncodableCode (Code.unseen seq) = Unit
IsEncodableCode Code.compression_active = Unit
IsEncodableCode Code.over_quota = Unit
IsEncodableCode Code.too_big = Unit
IsEncodableCode Code.unknown_cte = Unit
IsEncodableCode (Code.append_uid uid_validity uid) = Unit
IsEncodableCode (Code.copy_uid uid_validity source destination) = Unit
IsEncodableCode Code.uid_not_sticky = Unit
IsEncodableCode (Code.other unknown) = all is_plain unknown ≡ true

pub Sends-code : (c : Code) → IsEncodableCode c → Sends (encode_code c)
unfolding encode_code
Sends-code Code.alert h = Sends-plain (codes "ALERT") refl
Sends-code (Code.bad_charset allowed) h = Sends-allowed_charsets allowed h
Sends-code (Code.capability caps) h =
    Sends->> (Sends-plain (codes "CAPABILITY ") refl)
      (Sends-join IsEncodableCapability caps.inner (codes " ") Sends-capability refl h)
Sends-code Code.parse h = Sends-plain (codes "PARSE") refl
Sends-code (Code.permanent_flags flags) h = Sends->> (Sends-plain (codes "PERMANENTFLAGS (") refl) (
    Sends->> (Sends-join IsEncodableFlagPerm flags (codes " ") Sends-flag_perm refl h)
      (Sends-plain (codes ")") refl))
Sends-code Code.read_only h = Sends-plain (codes "READ-ONLY") refl
Sends-code Code.read_write h = Sends-plain (codes "READ-WRITE") refl
Sends-code Code.try_create h = Sends-plain (codes "TRYCREATE") refl
Sends-code (Code.uid_next next_uid) h =
    Sends->> (Sends-plain (codes "UIDNEXT ") refl) (Sends-number next_uid)
Sends-code (Code.uid_validity validity) h =
    Sends->> (Sends-plain (codes "UIDVALIDITY ") refl) (Sends-number validity)
Sends-code (Code.unseen seq) h = Sends->> (Sends-plain (codes "UNSEEN ") refl) (Sends-number seq)
Sends-code Code.compression_active h = Sends-plain (codes "COMPRESSIONACTIVE") refl
Sends-code Code.over_quota h = Sends-plain (codes "OVERQUOTA") refl
Sends-code Code.too_big h = Sends-plain (codes "TOOBIG") refl
Sends-code Code.unknown_cte h = Sends-plain (codes "UNKNOWN-CTE") refl
Sends-code (Code.append_uid uid_validity uid) h = Sends->> (Sends-plain (codes "APPENDUID ") refl) (
    Sends->> (Sends-number uid_validity)
      (Sends->> (Sends-plain (codes " ") refl) (Sends-number uid)))
Sends-code (Code.copy_uid uid_validity source destination) h =
    Sends->> (Sends-plain (codes "COPYUID ") refl) (
      Sends->> (Sends-number uid_validity) (
        Sends->> (Sends-plain (codes " ") refl) (
          Sends->> (Sends-uid_set source)
            (Sends->> (Sends-plain (codes " ") refl) (Sends-uid_set destination)))))
Sends-code Code.uid_not_sticky h = Sends-plain (codes "UIDNOTSTICKY") refl
Sends-code (Code.other unknown) h = Sends-plain unknown h
