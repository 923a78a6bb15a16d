-- ===== src/Encode/Tests.antt =====
-- A command, a response and a greeting that are encoded (imap-codec/src/codec/encode.rs).
use imap_codec.Prelude.{ok}
use imap_codec.Core.Validation.{validate_nonempty, validate_bytes, position}
use imap_codec.Prelude.{
  zero, suc, ◌+◌, ◌==◌, ◌≢◌, ◌∙◌, ap, All, Option, ℕ, ◌≡◌, refl, none, some, true, [], ◌∷◌, ◌++◌,
  map, Bytes, codes, length, all, if◌then◌else◌, arith,
}
use imap_codec.Core.Literal.{sync, non_sync}
use imap_codec.Core.IString.{literal, quoted}
use imap_codec.Core.AString.{AString, string}
use imap_codec.Core.Tag.{is_tag_char}
use imap_codec.Indicators.{
  is_astring_char, is_text_char, is_atom_char, is_atom_specials, is_char, is_ctl, is_list_wildcards,
  is_quoted_specials, is_resp_specials,
}
use imap_codec.Fragmentizer.State.{
  enqueue_bytes, without_max_message_size, new, with_limit, progress, fragment_bytes,
  is_message_complete, current_parser, parse_with, conclude, parser_after, dequeue_parsed_bytes,
}
use imap_codec.Core.AtomExt
use imap_codec.Core.Quoted
use imap_codec.Core.IString
use imap_codec.Core.AString
use imap_codec.Encode.Context
use imap_codec.Encode.Values.{encode_astring}
use imap_codec.Encode.Grammar.{Denotes}
use imap_codec.Encode.Spelled.{encode_astring-Denotes}
use imap_codec.Encode.Limited.{read_message-new}
use imap_codec.Encode.Command.Called.{encode-called}
use imap_codec.Encode.Sends.Called.{called}
use imap_codec.Encode.Context.{fragment_data, dump}
use imap_codec.Encode.Decimal.{display}
use imap_codec.Encode.Reading.{read_message, reading}
use imap_codec.Encode.Command
use imap_codec.Encode.Responses
use imap_codec.Encode.Responses.Delivery.{
  read_message-response, IsEncodableResponse, read_message-greeting,
}
use imap_codec.Encode.Sends.Statuses.{IsEncodableGreeting}
use imap_codec.Encode.Responses.Ambiguity.{IsBase64, sent, basic_new-base64, basic_new-coded}
use imap_codec.Message.Continuation.{basic_new, is_ambiguous, is_none, is_ok, starts_with_bracket}
use imap_codec.Core.Text
use imap_codec.Encode.Sends.{plain_number}
use imap_codec.Encode.Sends.Message.{IsQuiet}
use imap_codec.Encode.Sends.Sets.{IsPlain}
use imap_codec.Encode.Settled.{is_plain, Settled-plain, Settled-not_LineAnnounces}
use imap_codec.Encode.Threads
use imap_codec.Encode.Threads.Walk.{display-thread_text, thread_text}
use imap_codec.Message.Command.{Command, CommandBody}
use imap_codec.Message.Extensions.{Thread, members, members_with, cons, nil}
use imap_codec.Message.Packages.{Packages}
use imap_codec.Message.Response.{
  Response, MessageDataItem, Data, data_response, CommandContinuationRequest, basic, base64,
  Greeting, ok_greeting, Code,
}
use imap_codec.Encode.Command.Delivery.{read_message-command, IsEncodableCommand}

abbrev user : AString
user = string (quoted (record { inner = codes "a \"b\"" }))

user_name-quoted : AString.try_from (codes "a \"b\"") ≡ ok user
unfolding AString.try_from AtomExt.try_from AtomExt.validate IString.try_from IString.literal_from
    Quoted.try_from Quoted.validate validate_nonempty validate_bytes position is_astring_char
    is_atom_char is_atom_specials is_char is_ctl is_list_wildcards is_quoted_specials
    is_resp_specials is_text_char
user_name-quoted = refl

encode_astring-Denotes_example :
    Denotes (dump (Context.into_items (encode_astring user Context.new))) (codes "a \"b\"")
    × ((value' : Bytes)
        → Denotes (dump (Context.into_items (encode_astring user Context.new))) value'
        → codes "a \"b\"" ≡ value')
encode_astring-Denotes_example =
    encode_astring-Denotes (codes "a \"b\"") (omega arith) user_name-quoted

abbrev password : AString
password = string (literal (record { data_bytes = codes "x\r\n{1}"; mode = non_sync }))

-- Dates are numbers, and a text in base64 is a line of strokes for each byte, each with an end.
abbrev strokes : ℕ → Bytes → Bytes
strokes zero rest = b'B' ∷ rest
strokes (suc n) rest = b'A' ∷ strokes n rest

abbrev letters : Bytes → Bytes
letters [] = []
letters (b ∷ bs) = strokes b (letters bs)

abbrev decoded : ℕ → Bytes → Option Bytes
decoded zero [] = some []
decoded (suc n) [] = none
decoded n (c ∷ text) =
    let next = decoded (suc n) text in
    let rest = decoded 0 text in
    if c == b'A'
    then next
    else if c == b'B'
    then elim rest [ some bs ↦ some (n ∷ bs) | none ↦ none ]
    else none

abbrev packages : Packages ℕ ℕ
packages = record {
  iteration_order = λ singles. singles;
  base64_encode = letters;
  base64_decode = decoded 0;
  format_date = display;
  format_date_time = display;
}

strokes_plain :
    (n : ℕ) (rest : Bytes) → all is_plain rest ≡ true → all is_plain (strokes n rest) ≡ true
strokes_plain zero rest h = h
strokes_plain (suc n) rest h = strokes_plain n rest h

letters_plain : (data_bytes : Bytes) → all is_plain (letters data_bytes) ≡ true
letters_plain [] = refl
letters_plain (b ∷ bs) = strokes_plain b (letters bs) (letters_plain bs)

strokes_alphabet :
    (n : ℕ) (rest : Bytes) → All (λ b. b ≢ b'[') rest → All (λ b. b ≢ b'[') (strokes n rest)
strokes_alphabet zero rest h = ((λ e. omega (e, arith)), h)
strokes_alphabet (suc n) rest h = ((λ e. omega (e, arith)), strokes_alphabet n rest h)

letters_alphabet : (data_bytes : Bytes) → All (λ b. b ≢ b'[') (letters data_bytes)
letters_alphabet [] = tt
letters_alphabet (b ∷ bs) = strokes_alphabet b (letters bs) (letters_alphabet bs)

decoded-strokes :
    (n b : ℕ) (rest bs : Bytes)
    → decoded 0 rest ≡ some bs
    → decoded n (strokes b rest) ≡ some ((n + b) ∷ bs)
decoded-strokes n zero rest bs h = let same : n + 0 ≡ n = omega arith in rw (h, same) refl
decoded-strokes n (suc b) rest bs h =
    let same : suc n + b ≡ n + suc b = omega arith in
    decoded-strokes (suc n) b rest bs h ∙ ap (λ (c : ℕ). some (c ∷ bs)) same

decoded-letters : (data_bytes : Bytes) → decoded 0 (letters data_bytes) ≡ some data_bytes
decoded-letters [] = refl
decoded-letters (b ∷ bs) =
    let same : 0 + b ≡ b = omega arith in
    decoded-strokes 0 b (letters bs) bs (decoded-letters bs) ∙ ap (λ (c : ℕ). some (c ∷ bs)) same

packages-IsPlain : IsPlain packages
packages-IsPlain = record {
  base64_plain = letters_plain;
  date_plain = plain_number;
  date_time_plain = plain_number;
}

packages-IsBase64 : IsBase64 packages
packages-IsBase64 = record { decodes = decoded-letters; alphabet = letters_alphabet }

-- The text of a continuation request that cannot be decoded.
abbrev ready : CommandContinuationRequest
ready = basic none (record { inner = codes "ready" })

new_ready : basic_new packages none (codes "ready") ≡ ok ready
unfolding basic_new is_ambiguous is_none starts_with_bracket is_ok Text.try_from Text.validate
    validate_nonempty validate_bytes position is_text_char
new_ready = refl

basic_new-base64_example : sent packages ready ≢ sent packages (base64 (1 ∷ 2 ∷ []))
basic_new-base64_example =
    basic_new-base64 packages none (codes "ready") (1 ∷ 2 ∷ []) packages-IsBase64 tt new_ready

basic_new-coded_example :
    sent packages ready ≢ sent packages (basic (some Code.alert) (record { inner = codes "go" }))
basic_new-coded_example =
    basic_new-coded packages (codes "ready") Code.alert (record { inner = codes "go" }) tt new_ready

abbrev log_in : Command ℕ ℕ
log_in = record { tag = record { inner = codes "A1" }; body = CommandBody.login user password }

log_in-IsEncodableCommand : IsEncodableCommand log_in
unfolding is_tag_char is_text_char is_astring_char is_atom_char is_atom_specials is_char is_ctl
    is_list_wildcards is_quoted_specials is_resp_specials
log_in-IsEncodableCommand =
    ((refl, (refl, tt)), ((refl, (refl, (refl, (refl, (refl, tt))))), omega arith))

read_message-command_example :
    let items = Command.encode packages log_in in
    read_message
      (length items)
      (enqueue_bytes without_max_message_size (dump items ++ codes "A2 NOOP\r\n"))
    ≡ some (reading (dump items) (codes "A2 NOOP\r\n") none, map fragment_data items)
read_message-command_example =
    read_message-command packages log_in (codes "A2 NOOP\r\n") packages-IsPlain
      log_in-IsEncodableCommand

-- `* 1 FETCH (RFC822.TEXT {5}\r\nhello UID 7)`
abbrev fetched : Response ℕ
fetched = data_response (
    Data.fetch 1 (record {
      inner =
          MessageDataItem.rfc822_text
            (record { inner = some (literal (record { data_bytes = codes "hello"; mode = sync })) })
          ∷ MessageDataItem.uid 7
          ∷ [];
    }))

fetched-IsEncodableResponse : IsEncodableResponse fetched
fetched-IsEncodableResponse = (omega arith, (tt, tt))

read_message-response_example :
    let items = Responses.encode packages fetched in
    read_message
      (length items)
      (enqueue_bytes without_max_message_size (dump items ++ codes "* 7 EXISTS\r\n"))
    ≡ some (reading (dump items) (codes "* 7 EXISTS\r\n") none, map fragment_data items)
read_message-response_example =
    read_message-response packages fetched (codes "* 7 EXISTS\r\n") packages-IsPlain
      fetched-IsEncodableResponse

quiet : (text : Bytes) → all is_plain text ≡ true → IsQuiet text
quiet text plain =
    let settled = Settled-plain text plain in
    record {
      one_line = settled.one_line;
      announces_nothing = Settled-not_LineAnnounces text settled;
    }

abbrev greeting : Greeting
greeting = record {
  kind = ok_greeting;
  code = some Code.read_only;
  text = record { inner = codes "[x] ready" };
}

greeting-IsEncodableGreeting : IsEncodableGreeting greeting
greeting-IsEncodableGreeting = (tt, quiet (codes "[x] ready") refl)

read_message-greeting_example :
    let items = Responses.greeting_codec_encode greeting in
    read_message
      (length items)
      (enqueue_bytes without_max_message_size (dump items ++ codes "* OK\r\n"))
    ≡ some (reading (dump items) (codes "* OK\r\n") none, map fragment_data items)
read_message-greeting_example =
    read_message-greeting greeting (codes "* OK\r\n") greeting-IsEncodableGreeting

-- `(1 2 (3)(4))`
abbrev answered : Thread
answered =
    members_with (record { inner = 1 ∷ 2 ∷ [] })
      (cons (members (record { inner = 3 ∷ [] })) (cons (members (record { inner = 4 ∷ [] })) nil))

display-thread_text_example : Threads.display answered ≡ some (thread_text answered)
display-thread_text_example = display-thread_text answered

answered_text : Threads.display answered ≡ some (codes "(1 2 (3)(4))")
unfolding Threads.display
answered_text = refl

one_line :
    read_message 1 (enqueue_bytes without_max_message_size (codes "A NOOP\r\nB"))
    ≡ some (reading (codes "A NOOP\r\n") (codes "B") none, codes "A NOOP\r\n" ∷ [])
unfolding read_message enqueue_bytes without_max_message_size with_limit progress fragment_bytes
    is_message_complete current_parser parse_with conclude parser_after dequeue_parsed_bytes
one_line = refl

read_message-new_example :
    read_message 1 (enqueue_bytes (new 8) (codes "A NOOP\r\nB"))
    ≡ some (
      record (reading (codes "A NOOP\r\n") (codes "B") none) { max_message_size = some 8 },
      codes "A NOOP\r\n" ∷ [],
    )
read_message-new_example = read_message-new 8 1 (codes "A NOOP\r\nB") one_line (omega arith)

encode-called_example :
    (rest : Bytes) × (dump (Command.encode packages log_in)
      ≡ codes "A1" ++ (codes " " ++ (called log_in.body ++ rest)))
encode-called_example = encode-called packages log_in packages-IsPlain (log_in-IsEncodableCommand.1)
