-- ===== src/Encode/Strings.antt =====
-- How strings and mailboxes are written (imap-codec/src/codec/encode.rs), and what a message of
-- such writes needs to be taken apart again by imap-codec/src/fragmentizer.rs.
use imap_codec.Prelude.{◌≡◌, refl, true, List, [], ◌∷◌, ◌++◌, Bytes, codes, length, All, ◌≤◌}
use imap_codec.Core.IString.{literal, quoted}
use imap_codec.Core.AString.{AString, atom, string}
use imap_codec.Indicators.{is_astring_char, is_text_char}
use imap_codec.Escape.{escape_quoted}
use imap_codec.Mailbox.{Mailbox, inbox, other}
use imap_codec.Fragmentizer.LineParser.{u32_max}
use imap_codec.Encode.Context.{EncodeContext}
use imap_codec.Encode.Values.{
  encode_quoted, encode_istring, encode_atom_ext, encode_astring, encode_mailbox,
}
use imap_codec.Encode.Writes.{Write, text_write, literal_write, write_to}
use imap_codec.Encode.Delivery.{Sendable}
use imap_codec.Encode.Settled.{
  Settled, Settled-append, Settled-nil, Settled-plain, Settled-not_LineAnnounces, Settled-astring,
  Settled-quoted,
}

-- What encoding a string or a mailbox writes.
abbrev pub write_of : AString → Write
write_of (atom a) = text_write a.inner
write_of (string (quoted q)) = text_write (codes "\"" ++ (escape_quoted q.inner ++ codes "\""))
write_of (string (literal l)) = literal_write l

abbrev pub mailbox_write : Mailbox → Write
mailbox_write inbox = text_write (codes "INBOX")
mailbox_write (other o) = write_of o.inner

pub encode_astring-write_to :
    (v : AString) (ctx : EncodeContext) → encode_astring v ctx ≡ write_to (write_of v) ctx
unfolding encode_astring encode_atom_ext encode_istring encode_quoted write_to
encode_astring-write_to (atom a) ctx = refl
encode_astring-write_to (string (quoted q)) ctx = refl
encode_astring-write_to (string (literal l)) ctx = refl

pub encode_mailbox-write_to :
    (m : Mailbox) (ctx : EncodeContext) → encode_mailbox m ctx ≡ write_to (mailbox_write m) ctx
unfolding encode_mailbox
encode_mailbox-write_to inbox ctx = unfold write_to in refl
encode_mailbox-write_to (other o) ctx = encode_astring-write_to o.inner ctx

-- The bytes of a string are those that its type allows, and a literal's length has 32 bits.
abbrev pub IsEncodable : AString → Type 0
IsEncodable (atom a) = All (λ b. is_astring_char b ≡ true) a.inner
IsEncodable (string (quoted q)) = All (λ b. is_text_char b ≡ true) q.inner
IsEncodable (string (literal l)) = length l.data_bytes ≤ u32_max

abbrev pub IsEncodableMailbox : Mailbox → Type 0
IsEncodableMailbox inbox = Unit
IsEncodableMailbox (other o) = IsEncodable o.inner

abbrev pub IsSettledWrite : Write → Type 0
IsSettledWrite (text_write text) = Settled text
IsSettledWrite (literal_write l) = length l.data_bytes ≤ u32_max

pub IsSettledWrite-write_of : (v : AString) → IsEncodable v → IsSettledWrite (write_of v)
IsSettledWrite-write_of (atom a) h = Settled-astring a.inner h
IsSettledWrite-write_of (string (quoted q)) h = Settled-quoted q.inner h
IsSettledWrite-write_of (string (literal l)) h = h

pub IsSettledWrite-mailbox_write :
    (m : Mailbox) → IsEncodableMailbox m → IsSettledWrite (mailbox_write m)
IsSettledWrite-mailbox_write inbox h = Settled-plain (codes "INBOX") refl
IsSettledWrite-mailbox_write (other o) h = IsSettledWrite-write_of o.inner h

-- Settled texts and literals can be sent in any order.
pub Sendable-Settled :
    (open_line : Bytes) (writes : List Write)
    → Settled open_line
    → All IsSettledWrite writes
    → Sendable open_line writes
Sendable-Settled open_line [] h _ = (h.one_line, Settled-not_LineAnnounces open_line h)
Sendable-Settled open_line (text_write text ∷ writes) h (s, rest) =
    Sendable-Settled (open_line ++ text) writes (Settled-append open_line text h s) rest
Sendable-Settled open_line (literal_write l ∷ writes) h (size, rest) =
    (h.one_line, size, Sendable-Settled [] writes Settled-nil rest)
