-- ===== src/Encode/Sends/Statuses.antt =====
-- Greetings and status responses (imap-codec/src/codec/encode.rs).
use imap_codec.Prelude.{◌≡◌, refl, true, Bytes, Option, none, some, codes, all, All}
use imap_codec.Core.Tag.{Tag, is_tag_char}
use imap_codec.Core.Text.{Text}
use imap_codec.Encode.Settled.{is_plain}
use imap_codec.Encode.Values.{encode_tag, encode_text}
use imap_codec.Encode.Writer.{◌>>◌, write, if_some}
use imap_codec.Encode.Sends.{Sends, Sends->>, Sends-plain, Sends-Settled, Sends-if_some, IfSome}
use imap_codec.Encode.Sends.Codes.{IsEncodableCode, Sends-code}
use imap_codec.Encode.Sends.Message.{Finishes, Finishes->>, Finishes-text, IsQuiet}
use imap_codec.Encode.Command.Delivery.{Settled-tag}
use imap_codec.Encode.Responses.{
  encode_greeting_kind, encode_bracketed, encode_greeting, encode_status_tag, format_status,
  status_name, encode_status,
}
use imap_codec.Message.Response.{
  Code, Greeting, GreetingKind, ok_greeting, pre_auth, StatusKind, ok_status, no_status, bad_status,
  Status, untagged, tagged,
}

Sends-greeting_kind : (kind : GreetingKind) → Sends (encode_greeting_kind kind)
unfolding encode_greeting_kind
Sends-greeting_kind ok_greeting = Sends-plain (codes "OK") refl
Sends-greeting_kind pre_auth = Sends-plain (codes "PREAUTH") refl
Sends-greeting_kind GreetingKind.bye = Sends-plain (codes "BYE") refl

pub Sends-bracketed : (c : Code) → IsEncodableCode c → Sends (encode_bracketed c)
unfolding encode_bracketed
Sends-bracketed c h =
    Sends->> (Sends-plain (codes "[") refl)
      (Sends->> (Sends-code c h) (Sends-plain (codes "] ") refl))

-- A code before a text that does not announce a literal.
abbrev pub IsEncodableText : Option Code → Text → Type 0
IsEncodableText code text = IfSome IsEncodableCode code × IsQuiet text.inner

pub Finishes-coded :
    (code : Option Code) (text : Text)
    → IsEncodableText code text
    → Finishes (if_some code encode_bracketed >> (encode_text text >> write (codes "\r\n")))
unfolding encode_text write
Finishes-coded code text (hc, ht) =
    Finishes->> (Sends-if_some IsEncodableCode code Sends-bracketed hc)
      (Finishes-text text.inner ht)

abbrev pub IsEncodableGreeting : Greeting → Type 0
IsEncodableGreeting greeting = IsEncodableText greeting.code greeting.text

pub Finishes-greeting : (g : Greeting) → IsEncodableGreeting g → Finishes (encode_greeting g)
unfolding encode_greeting
Finishes-greeting g h = Finishes->> (Sends-plain (codes "* ") refl) (
    Finishes->> (Sends-greeting_kind g.kind)
      (Finishes->> (Sends-plain (codes " ") refl) (Finishes-coded g.code g.text h)))

abbrev pub IsEncodableTag : Tag → Type 0
IsEncodableTag tag = All (λ b. is_tag_char b ≡ true) tag.inner

abbrev pub IsEncodableStatus : Status → Type 0
IsEncodableStatus (untagged body) = IsEncodableText body.code body.text
IsEncodableStatus (tagged tag body) = IsEncodableTag tag × IsEncodableText body.code body.text
IsEncodableStatus (Status.bye code text) = IsEncodableText code text

Sends-status_tag : (tag : Option Tag) → IfSome IsEncodableTag tag → Sends (encode_status_tag tag)
unfolding encode_status_tag encode_tag write
Sends-status_tag none h = Sends-plain (codes "*") refl
Sends-status_tag (some tag) h = Sends-Settled tag.inner (Settled-tag tag.inner h)

Finishes-format_status :
    (tag : Option Tag) (status : Bytes) (code : Option Code) (text : Text)
    → IfSome IsEncodableTag tag
    → all is_plain status ≡ true
    → IsEncodableText code text
    → Finishes (format_status tag status code text)
unfolding format_status
Finishes-format_status tag status code text ht hs h = Finishes->> (Sends-status_tag tag ht) (
    Finishes->> (Sends-plain (codes " ") refl) (
      Finishes->> (Sends-plain status hs)
        (Finishes->> (Sends-plain (codes " ") refl) (Finishes-coded code text h))))

plain_status_name : (kind : StatusKind) → all is_plain (status_name kind) ≡ true
plain_status_name ok_status = refl
plain_status_name no_status = refl
plain_status_name bad_status = refl

pub Finishes-status : (s : Status) → IsEncodableStatus s → Finishes (encode_status s)
unfolding encode_status
Finishes-status (untagged body) h =
    Finishes-format_status none (status_name body.kind) body.code body.text tt
      (plain_status_name body.kind) h
Finishes-status (tagged tag body) (ht, h) =
    Finishes-format_status (some tag) (status_name body.kind) body.code body.text ht
      (plain_status_name body.kind) h
Finishes-status (Status.bye code text) h =
    Finishes-format_status none (codes "BYE") code text tt refl h
