-- ===== src/Encode/Sends/Strings.antt =====
-- Strings, mailboxes and numbers (imap-codec/src/codec/encode.rs) as parts of a message.
use imap_codec.Prelude.{
  ◌≡◌, ◌≤◌, refl, true, [], ◌∷◌, Bytes, Option, none, some, codes, length, All,
}
use imap_codec.Indicators.{is_atom_char, is_astring_char, is_text_char}
use imap_codec.Core.Atom.{Atom}
use imap_codec.Core.Quoted.{Quoted}
use imap_codec.Core.Literal.{Literal}
use imap_codec.Core.IString.{IString, literal, quoted}
use imap_codec.Core.NString.{NString}
use imap_codec.Core.AString.{AString}
use imap_codec.Core.Charset.{Charset}
use imap_codec.Mailbox.{Mailbox, ListMailbox}
use imap_codec.Fragmentizer.LineParser.{u32_max}
use imap_codec.Encode.Values.{
  encode_atom, encode_quoted, encode_literal, encode_istring, encode_optional, encode_nstring,
  encode_astring, encode_mailbox, encode_list_mailbox, encode_charset,
}
use imap_codec.Encode.Writes.{text_write, literal_write, write_to}
use imap_codec.Encode.Settled.{Settled, Settled-astring, Settled-quoted, Settled-plain}
use imap_codec.Encode.Strings.{
  write_of, mailbox_write, encode_astring-write_to, encode_mailbox-write_to, IsEncodable,
  IsEncodableMailbox, IsSettledWrite-write_of, IsSettledWrite-mailbox_write,
}
use imap_codec.Encode.Patterns.{
  list_mailbox_write, encode_list_mailbox-write_to, IsEncodablePattern,
  IsSettledWrite-list_mailbox_write,
}
use imap_codec.Encode.Sends.{Sends, Sends-write_to, IfSome}

-- The bytes of a value are those that its type allows, and a literal's length has 32 bits.
abbrev pub IsEncodableAtom : Atom → Type 0
IsEncodableAtom a = All (λ b. is_atom_char b ≡ true) a.inner

abbrev pub IsEncodableQuoted : Quoted → Type 0
IsEncodableQuoted q = All (λ b. is_text_char b ≡ true) q.inner

abbrev pub IsEncodableLiteral : Literal → Type 0
IsEncodableLiteral l = length l.data_bytes ≤ u32_max

abbrev pub IsEncodableIString : IString → Type 0
IsEncodableIString (quoted q) = IsEncodableQuoted q
IsEncodableIString (literal l) = IsEncodableLiteral l

abbrev pub IsEncodableNString : NString → Type 0
IsEncodableNString s = IfSome IsEncodableIString s.inner

abbrev pub IsEncodableCharset : Charset → Type 0
IsEncodableCharset (Charset.atom a) = IsEncodableAtom a
IsEncodableCharset (Charset.quoted q) = IsEncodableQuoted q

atom_astring :
    (bytes : Bytes)
    → All (λ b. is_atom_char b ≡ true) bytes
    → All (λ b. is_astring_char b ≡ true) bytes
unfolding is_astring_char
atom_astring [] h = tt
atom_astring (b ∷ bytes) (hb, h) = (rw hb, atom_astring bytes h)

pub Settled-atom : (a : Atom) → IsEncodableAtom a → Settled a.inner
Settled-atom a h = Settled-astring a.inner (atom_astring a.inner h)

pub Sends-atom : (a : Atom) → IsEncodableAtom a → Sends (encode_atom a)
Sends-atom a h =
    Sends-write_to (text_write a.inner) (λ ctx. unfold encode_atom write_to in refl)
      (Settled-atom a h)

pub Sends-quoted : (q : Quoted) → IsEncodableQuoted q → Sends (encode_quoted q)
Sends-quoted q h =
    Sends-write_to (write_of (AString.string (quoted q)))
      (λ ctx. unfold encode_quoted write_to in refl) (Settled-quoted q.inner h)

pub Sends-literal : (l : Literal) → IsEncodableLiteral l → Sends (encode_literal l)
Sends-literal l h = Sends-write_to (literal_write l) (λ ctx. unfold write_to in refl) h

pub Sends-istring : (s : IString) → IsEncodableIString s → Sends (encode_istring s)
Sends-istring (quoted q) h = unfold encode_istring in Sends-quoted q h
Sends-istring (literal l) h = unfold encode_istring in Sends-literal l h

Sends-optional : (s : Option IString) → IfSome IsEncodableIString s → Sends (encode_optional s)
unfolding encode_optional
Sends-optional none h =
    Sends-write_to (text_write (codes "NIL")) (λ ctx. unfold write_to in refl)
      (Settled-plain (codes "NIL") refl)
Sends-optional (some s) h = Sends-istring s h

pub Sends-nstring : (s : NString) → IsEncodableNString s → Sends (encode_nstring s)
unfolding encode_nstring
Sends-nstring s h = Sends-optional s.inner h

pub Sends-astring : (s : AString) → IsEncodable s → Sends (encode_astring s)
Sends-astring s h =
    Sends-write_to (write_of s) (encode_astring-write_to s) (IsSettledWrite-write_of s h)

pub Sends-mailbox : (m : Mailbox) → IsEncodableMailbox m → Sends (encode_mailbox m)
Sends-mailbox m h =
    Sends-write_to (mailbox_write m) (encode_mailbox-write_to m) (IsSettledWrite-mailbox_write m h)

pub Sends-list_mailbox : (m : ListMailbox) → IsEncodablePattern m → Sends (encode_list_mailbox m)
Sends-list_mailbox m h =
    Sends-write_to (list_mailbox_write m) (encode_list_mailbox-write_to m)
      (IsSettledWrite-list_mailbox_write m h)

pub Sends-charset : (c : Charset) → IsEncodableCharset c → Sends (encode_charset c)
Sends-charset (Charset.atom a) h = unfold encode_charset in Sends-atom a h
Sends-charset (Charset.quoted q) h = unfold encode_charset in Sends-quoted q h
