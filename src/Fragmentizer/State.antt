-- ===== src/Fragmentizer/State.antt =====
-- The `Fragmentizer` of imap-codec/src/fragmentizer.rs: its state and its operations.
pub mod Limit
pub mod Progress
pub mod Stream
pub mod Run
pub mod Invariant
pub mod Calls
pub mod FragmentBytes
pub mod Decode
use imap_codec.Prelude.{
  ℕ, ◌-◌, Bool, true, false, Option, none, some, [], ◌∷◌, ◌++◌, Bytes, length, take, drop, ltb,
  if◌then◌else◌, Result, ok, err,
}
use imap_codec.Fragmentizer.Fragment.{FragmentInfo, line, literal, fragment_bytes_of}
use imap_codec.Fragmentizer.LineParser
use imap_codec.Fragmentizer.LineParser.{LineParser}
use imap_codec.Fragmentizer.LiteralParser
use imap_codec.Fragmentizer.LiteralParser.{LiteralParser}

pub data Parser : Type 0 where
  line_parser : LineParser → Parser
  literal_parser : LiteralParser → Parser

pub record Fragmentizer : Type 0 where
  pub unparsed_buffer : Bytes
  pub max_message_size : Option ℕ
  pub max_message_size_exceeded : Bool
  pub message_poisoned : Bool
  pub message_buffer : Bytes
  pub parser : Option Parser

-- `Parser::Line(LineParser::new(0))`, the parser that every message starts with.
unfoldable pub first_parser : Parser
unfolding LineParser.new
first_parser = line_parser (LineParser.new 0)

unfoldable pub with_limit : Option ℕ → Fragmentizer
unfolding first_parser
with_limit max = record {
  unparsed_buffer = [];
  max_message_size = max;
  max_message_size_exceeded = false;
  message_poisoned = false;
  message_buffer = [];
  parser = some first_parser;
}

unfoldable pub new : ℕ → Fragmentizer
unfolding with_limit
new max_message_size = with_limit (some max_message_size)

unfoldable pub without_max_message_size : Fragmentizer
unfolding with_limit
without_max_message_size = with_limit none

unfoldable pub dequeue_parsed_bytes : Fragmentizer → ℕ → Fragmentizer
dequeue_parsed_bytes f count =
    let parsed_bytes = take count f.unparsed_buffer in
    let dequeued = record f { unparsed_buffer = drop count f.unparsed_buffer } in
    let extended = record dequeued { message_buffer = f.message_buffer ++ parsed_bytes } in
    elim f.max_message_size [
      | none ↦ extended
      | some size ↦
          let remaining_size = size - length f.message_buffer in
          if ltb remaining_size count
          then record dequeued {
            message_buffer = f.message_buffer ++ take remaining_size parsed_bytes;
            max_message_size_exceeded = true;
          }
          else extended
    ]

-- `None` in `parser` starts the next message; the current parser is returned with the state.
unfoldable pub current_parser : Fragmentizer → Fragmentizer × Parser
unfolding first_parser
current_parser f = elim f.parser [
  | some parser ↦ (f, parser)
  | none ↦ (
    record f {
      max_message_size_exceeded = false;
      message_poisoned = false;
      message_buffer = [];
      parser = some first_parser;
    },
    first_parser,
  )
]

-- The call of `parse` on the current parser: the parser that it leaves, the count and the fragment.
unfoldable pub parse_with : Parser → Bytes → Parser × ℕ × Option FragmentInfo
unfolding LineParser.parse LiteralParser.parse
parse_with (line_parser p) bytes =
    let (p', count, fragment) = LineParser.parse p bytes in (line_parser p', count, fragment)
parse_with (literal_parser p) bytes =
    let (p', count, fragment) = LiteralParser.parse p bytes in (literal_parser p', count, fragment)

-- The parser for what follows a fragment.
unfoldable pub parser_after : FragmentInfo → Option Parser
unfolding LineParser.new LiteralParser.new
parser_after (line _ _ none _) = none
parser_after (line _ end (some a) _) = some (literal_parser (LiteralParser.new end a.length))
parser_after (literal _ end) = some (line_parser (LineParser.new end))

-- The rest of `progress` behind the call of `parse`: the parsed bytes are dequeued, and a fragment
-- decides on the next parser.
unfoldable pub conclude :
    Fragmentizer → Parser × ℕ × Option FragmentInfo → Fragmentizer × Option FragmentInfo
conclude f (parser, count, none) =
    (dequeue_parsed_bytes (record f { parser = some parser }) count, none)
conclude f (parser, count, some fragment) = (
  record (dequeue_parsed_bytes (record f { parser = some parser }) count) {
    parser = parser_after fragment;
  },
  some fragment,
)

unfoldable pub progress : Fragmentizer → Fragmentizer × Option FragmentInfo
progress f =
    let (f', parser) = current_parser f in conclude f' (parse_with parser f'.unparsed_buffer)

unfoldable pub enqueue_bytes : Fragmentizer → Bytes → Fragmentizer
enqueue_bytes f bytes = record f { unparsed_buffer = f.unparsed_buffer ++ bytes }

unfoldable pub fragment_bytes : Fragmentizer → FragmentInfo → Option Bytes
unfolding fragment_bytes_of
fragment_bytes f fragment = fragment_bytes_of f.message_buffer fragment

unfoldable pub is_message_complete : Fragmentizer → Bool
is_message_complete f = elim f.parser [ none ↦ true | some _ ↦ false ]

unfoldable pub skip_message : Fragmentizer → Fragmentizer
unfolding first_parser
skip_message f = record f {
  max_message_size_exceeded = false;
  message_poisoned = false;
  message_buffer = [];
  parser = some first_parser;
}

unfoldable pub poison_message : Fragmentizer → Fragmentizer
poison_message f = record f { message_poisoned = true }

-- The secrets that two of the errors carry are the bytes of the message buffer.
pub data DecodeMessageError {ℓ κ} (M : Type ℓ) (E : Type κ) : Type (ℓ ⊔ κ) where
  decoding_failure : E → DecodeMessageError M E
  decoding_remainder : (message : M) (remainder : Bytes) → DecodeMessageError M E
  message_too_long : (initial : Bytes) → DecodeMessageError M E
  message_poisoned : (discarded : Bytes) → DecodeMessageError M E

-- What the decoder's result means: bytes that it leaves over are an error.
unfoldable pub decoded_message {ℓ κ} :
    {M : Type ℓ} {E : Type κ} → Result (Bytes × M) E → Result M (DecodeMessageError M E)
decoded_message (err e) = err (decoding_failure e)
decoded_message (ok ([], message)) = ok message
decoded_message (ok (b ∷ remainder, message)) = err (decoding_remainder message (b ∷ remainder))

-- The decoder is an argument, as in the source.
unfoldable pub decode_message {ℓ κ} :
    {M : Type ℓ} {E : Type κ}
    → Fragmentizer
    → (Bytes → Result (Bytes × M) E)
    → Result M (DecodeMessageError M E)
unfolding decoded_message
decode_message f decode =
    if f.max_message_size_exceeded
    then err (message_too_long f.message_buffer)
    else if f.message_poisoned
    then err (message_poisoned f.message_buffer)
    else decoded_message (decode f.message_buffer)
