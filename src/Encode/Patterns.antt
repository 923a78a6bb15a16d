-- ===== src/Encode/Patterns.antt =====
-- How a pattern of mailbox names (imap-types/src/mailbox.rs) is written
-- (imap-codec/src/codec/encode.rs).
use imap_codec.Prelude.{◌≡◌, refl, true, All}
use imap_codec.Indicators.{is_list_char}
use imap_codec.Core.IString.{literal, quoted}
use imap_codec.Core.AString
use imap_codec.Mailbox.{ListMailbox, token, string}
use imap_codec.Encode.Context.{EncodeContext}
use imap_codec.Encode.Values.{
  encode_list_mailbox, encode_list_char_string, encode_istring, encode_quoted,
}
use imap_codec.Encode.Writes.{Write, text_write, write_to}
use imap_codec.Encode.Settled.{Settled-list}
use imap_codec.Encode.Strings.{write_of, IsEncodable, IsSettledWrite, IsSettledWrite-write_of}

abbrev pub list_mailbox_write : ListMailbox → Write
list_mailbox_write (token lcs) = text_write lcs.inner
list_mailbox_write (string s) = write_of (AString.string s)

pub encode_list_mailbox-write_to :
    (m : ListMailbox) (ctx : EncodeContext)
    → encode_list_mailbox m ctx ≡ write_to (list_mailbox_write m) ctx
unfolding encode_list_mailbox encode_list_char_string encode_istring encode_quoted write_to
encode_list_mailbox-write_to (token lcs) ctx = refl
encode_list_mailbox-write_to (string (quoted q)) ctx = refl
encode_list_mailbox-write_to (string (literal l)) ctx = refl

abbrev pub IsEncodablePattern : ListMailbox → Type 0
IsEncodablePattern (token lcs) = All (λ b. is_list_char b ≡ true) lcs.inner
IsEncodablePattern (string s) = IsEncodable (AString.string s)

pub IsSettledWrite-list_mailbox_write :
    (m : ListMailbox) → IsEncodablePattern m → IsSettledWrite (list_mailbox_write m)
IsSettledWrite-list_mailbox_write (token lcs) h = Settled-list lcs.inner h
IsSettledWrite-list_mailbox_write (string s) h = IsSettledWrite-write_of (AString.string s) h
