-- ===== src/Encode/Sends/Items.antt =====
-- The items of commands as parts of a message.
use imap_codec.Prelude.{
  ℕ, ◌≡◌, refl, ap, sym, ◌∙◌, true, [], ◌∷◌, ◌++◌, Bytes, codes, all, All, arith, append_assoc,
}
use imap_codec.Indicators.{
  is_atom_char, is_atom_specials, is_char, is_ctl, is_list_wildcards, is_quoted_specials,
  is_resp_specials,
}
use imap_codec.Core.Atom.{Atom}
use imap_codec.Core.Literal.{Literal, sync, non_sync, LiteralMode}
use imap_codec.Encode.Context.{EncodeContext, write_all, push_line, push_literal}
use imap_codec.Encode.Values.{encode_literal, announcement}
use imap_codec.Encode.Settled.{is_plain}
use imap_codec.Encode.Writer.{◌>>◌, write}
use imap_codec.Encode.Items.{
  encode_auth_mechanism, encode_flag, encode_status_name, announcement8, encode_literal8,
  encode_literal_or_literal8, encode_compression, encode_enable, encode_resource, encode_quota_set,
  encode_quota_get, encode_sort_criterion, encode_threading,
}
use imap_codec.Encode.Sends.{Sends, Sends->>, Sends-plain, Sends-skip, Sends-number, Sends-if}
use imap_codec.Encode.Sends.Strings.{IsEncodableAtom, IsEncodableLiteral, Sends-literal}
use imap_codec.Message.Auth
use imap_codec.Message.Auth.{AuthMechanism}
use imap_codec.Message.Flag as Flags
use imap_codec.Message.Flag.{Flag, extension, keyword}
use imap_codec.Message.Extensions.{
  Literal8, LiteralOrLiteral8, literal, literal8, CompressionAlgorithm, deflate,
  display_compression, CapabilityEnable, display_enable, Resource, display_resource, QuotaGet,
  QuotaSet, SortCriterion, SortKey, sort_key_text, ThreadingAlgorithm, display_threading,
}
use imap_codec.Message.StatusItems.{StatusDataItemName}

plain_char : (b : ℕ) → is_atom_char b ≡ true → is_plain b ≡ true
unfolding is_atom_char is_atom_specials is_char is_ctl is_list_wildcards is_quoted_specials
    is_resp_specials
plain_char b h = ground arith

plain_chars : (bytes : Bytes) → All (λ b. is_atom_char b ≡ true) bytes → all is_plain bytes ≡ true
plain_chars [] h = refl
plain_chars (b ∷ bytes) (hb, h) = rw (plain_char b hb) (plain_chars bytes h)

pub plain_atom : (a : Atom) → IsEncodableAtom a → all is_plain a.inner ≡ true
plain_atom a h = plain_chars a.inner h

-- The atoms in a name are those that their types allow.
abbrev pub IsEncodableMechanism : AuthMechanism → Type 0
IsEncodableMechanism (AuthMechanism.other a) = IsEncodableAtom a
IsEncodableMechanism _ = Unit

pub plain_mechanism :
    (m : AuthMechanism) → IsEncodableMechanism m → all is_plain (Auth.as_ref m) ≡ true
unfolding Auth.as_ref
plain_mechanism (AuthMechanism.other a) h = plain_atom a h
plain_mechanism _ h = refl

pub Sends-auth_mechanism :
    (m : AuthMechanism) → IsEncodableMechanism m → Sends (encode_auth_mechanism m)
unfolding encode_auth_mechanism
Sends-auth_mechanism m h = Sends-plain (Auth.as_ref m) (plain_mechanism m h)

abbrev pub IsEncodableFlag : Flag → Type 0
IsEncodableFlag (extension a) = IsEncodableAtom a
IsEncodableFlag (keyword a) = IsEncodableAtom a
IsEncodableFlag _ = Unit

plain_flag : (f : Flag) → IsEncodableFlag f → all is_plain (Flags.display f) ≡ true
unfolding Flags.display
plain_flag (extension a) h = plain_atom a h
plain_flag (keyword a) h = plain_atom a h
plain_flag _ h = refl

pub Sends-flag : (f : Flag) → IsEncodableFlag f → Sends (encode_flag f)
unfolding encode_flag
Sends-flag f h = Sends-plain (Flags.display f) (plain_flag f h)

pub Sends-status_name : (name : StatusDataItemName) → Sends (encode_status_name name)
unfolding encode_status_name
Sends-status_name StatusDataItemName.messages = Sends-plain (codes "MESSAGES") refl
Sends-status_name StatusDataItemName.recent = Sends-plain (codes "RECENT") refl
Sends-status_name StatusDataItemName.uid_next = Sends-plain (codes "UIDNEXT") refl
Sends-status_name StatusDataItemName.uid_validity = Sends-plain (codes "UIDVALIDITY") refl
Sends-status_name StatusDataItemName.unseen = Sends-plain (codes "UNSEEN") refl
Sends-status_name StatusDataItemName.deleted = Sends-plain (codes "DELETED") refl
Sends-status_name StatusDataItemName.deleted_storage = Sends-plain (codes "DELETED-STORAGE") refl

-- The literal that a `literal8` is, but for the `~` in front of it.
abbrev pub as_literal : Literal8 → Literal
as_literal l = record { data_bytes = l.data_bytes; mode = l.mode }

announcement8-tilde :
    (mode : LiteralMode) (data_bytes : Bytes)
    → announcement8 mode data_bytes ≡ codes "~" ++ announcement mode data_bytes
unfolding announcement8 announcement
announcement8-tilde sync data_bytes = refl
announcement8-tilde non_sync data_bytes = refl

literal8-tilde :
    (l : Literal8) (ctx : EncodeContext)
    → encode_literal8 l ctx ≡ (write (codes "~") >> encode_literal (as_literal l)) ctx
unfolding encode_literal8 encode_literal ◌>>◌ write write_all push_line push_literal
literal8-tilde l ctx =
    let written = λ (text : Bytes).
      push_literal (write_all (push_line (record ctx { accumulator = text })) l.data_bytes)
        l.mode in
    ap (λ (t : Bytes). written (ctx.accumulator ++ t)) (announcement8-tilde l.mode l.data_bytes)
    ∙ ap written (sym (append_assoc ctx.accumulator (codes "~") (announcement l.mode l.data_bytes)))

abbrev pub IsEncodableLiteral8 : Literal8 → Type 0
IsEncodableLiteral8 l = IsEncodableLiteral (as_literal l)

pub Sends-literal8 : (l : Literal8) → IsEncodableLiteral8 l → Sends (encode_literal8 l)
Sends-literal8 l h =
    let parts = Sends->> (Sends-plain (codes "~") refl) (Sends-literal (as_literal l) h) in
    record {
      writes = parts.writes;
      encodes = λ ctx. literal8-tilde l ctx ∙ parts.encodes ctx;
      settled = parts.settled;
    }

abbrev pub IsEncodableLiteralOr8 : LiteralOrLiteral8 → Type 0
IsEncodableLiteralOr8 (literal l) = IsEncodableLiteral l
IsEncodableLiteralOr8 (literal8 l) = IsEncodableLiteral8 l

pub Sends-literal_or_literal8 :
    (l : LiteralOrLiteral8) → IsEncodableLiteralOr8 l → Sends (encode_literal_or_literal8 l)
unfolding encode_literal_or_literal8
Sends-literal_or_literal8 (literal l) h = Sends-literal l h
Sends-literal_or_literal8 (literal8 l) h = Sends-literal8 l h

pub Sends-compression : (algorithm : CompressionAlgorithm) → Sends (encode_compression algorithm)
unfolding encode_compression display_compression
Sends-compression deflate = Sends-plain (codes "DEFLATE") refl

abbrev pub IsEncodableEnable : CapabilityEnable → Type 0
IsEncodableEnable (CapabilityEnable.other a) = IsEncodableAtom a

pub Sends-enable : (c : CapabilityEnable) → IsEncodableEnable c → Sends (encode_enable c)
unfolding encode_enable display_enable
Sends-enable (CapabilityEnable.other a) h = Sends-plain a.inner (plain_atom a h)

abbrev pub IsEncodableResource : Resource → Type 0
IsEncodableResource (Resource.other a) = IsEncodableAtom a
IsEncodableResource _ = Unit

pub plain_resource :
    (r : Resource) → IsEncodableResource r → all is_plain (display_resource r) ≡ true
unfolding display_resource
plain_resource (Resource.other a) h = plain_atom a h
plain_resource _ h = refl

pub Sends-resource : (r : Resource) → IsEncodableResource r → Sends (encode_resource r)
unfolding encode_resource
Sends-resource r h = Sends-plain (display_resource r) (plain_resource r h)

pub Sends-quota_set : (q : QuotaSet) → IsEncodableResource q.resource → Sends (encode_quota_set q)
unfolding encode_quota_set
Sends-quota_set q h =
    Sends->> (Sends-resource q.resource h)
      (Sends->> (Sends-plain (codes " ") refl) (Sends-number q.limit))

pub Sends-quota_get : (q : QuotaGet) → IsEncodableResource q.resource → Sends (encode_quota_get q)
unfolding encode_quota_get
Sends-quota_get q h = Sends->> (Sends-resource q.resource h) (
    Sends->> (Sends-plain (codes " ") refl) (
      Sends->> (Sends-number q.usage)
        (Sends->> (Sends-plain (codes " ") refl) (Sends-number q.limit))))

plain_sort_key : (key : SortKey) → all is_plain (sort_key_text key) ≡ true
unfolding sort_key_text
plain_sort_key SortKey.arrival = refl
plain_sort_key _ = refl

pub Sends-sort_criterion : (c : SortCriterion) → Sends (encode_sort_criterion c)
unfolding encode_sort_criterion
Sends-sort_criterion c =
    Sends->> (Sends-if c.reverse (Sends-plain (codes "REVERSE ") refl) Sends-skip)
      (Sends-plain (sort_key_text c.key) (plain_sort_key c.key))

abbrev pub IsEncodableThreading : ThreadingAlgorithm → Type 0
IsEncodableThreading (ThreadingAlgorithm.other a) = IsEncodableAtom a
IsEncodableThreading _ = Unit

pub plain_threading :
    (t : ThreadingAlgorithm) → IsEncodableThreading t → all is_plain (display_threading t) ≡ true
unfolding display_threading
plain_threading (ThreadingAlgorithm.other a) h = plain_atom a h
plain_threading _ h = refl

pub Sends-threading : (t : ThreadingAlgorithm) → IsEncodableThreading t → Sends (encode_threading t)
unfolding encode_threading
Sends-threading t h = Sends-plain (display_threading t) (plain_threading t h)
