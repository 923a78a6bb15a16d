-- ===== src/Lib.antt =====
-- Verification of imap-codec: the parts of the crates imap-types and imap-codec that decide which
-- bytes an IMAP message is made of.
--
-- A byte is a natural number, a byte string, a `str` and a `String` are lists of bytes (a `str` is
-- its UTF-8 encoding), and the variants of one conversion that differ only in ownership (`&[u8]`,
-- `Vec<u8>`, `&str`, `String`, `Cow`) are one definition. The features are those of a default
-- build. `Result` and `Option` are results; a panic is `none`.
--
-- The parts, the files that model them, and the code:
--   Prelude, Prelude/*    names of the library, Boolean tests, lists of bytes and results
--   Indicators            imap-types/src/utils.rs, the module `indicators`: the byte classes
--   Escape                imap-types/src/utils.rs: `escape_quoted`, `unescape_quoted` and
--                         `escape_byte_string`; `str::contains` and `str::replace` of one and of
--                         two characters are written out
--   Core/Validation       imap-types/src/error.rs, and the search for an invalid byte that every
--                         `validate` of imap-types/src/core.rs makes
--   Core/<Type>           imap-types/src/core.rs: one file for each of Atom, AtomExt, Tag, Text,
--                         Quoted, QuotedChar, Literal, IString, NString, AString, Charset and VecN,
--                         with `validate`, `try_from` and `as_ref` under the source's names
--   Mailbox               imap-types/src/mailbox.rs: names, the reserved name INBOX and patterns
--   Sequence/Types        imap-types/src/sequence.rs: SeqOrUid, Sequence and SequenceSet; a
--                         `NonZeroU32` is a number with the predicate `IsNonZero`
--   Sequence/Iter         the same file: `iter`, `iter_naive`, `simplify`, `cleanup` and
--                         `SequenceSetIter` with the two directions of `RangeInclusive`
--   Sequence/Parse        the same file: `FromStr` of SeqOrUid, Sequence and SequenceSet; `u32::from_str`
--                         and `str::split` are written out
--   Sequence/Convert      the same file: `TryFrom` of numbers and ranges; an integer of any type is
--                         a ℤ, and a type is its least value where the code saturates
--   Sequence/Order        the same file: `normalize` and `partial_cmp` of Sequence
--   Sequence/Normalize    the same file: `SequenceSet::normalize` and `merge_ranges`; the order in
--                         which the `HashSet` is walked over is an argument
--   Encode/Context        imap-codec/src/codec/encode.rs: `EncodeContext`, `Fragment`, `Encoded`
--   Message/*             imap-types/src/auth.rs, flag.rs, status.rs, search.rs, fetch.rs,
--                         envelope.rs, body.rs, response.rs, command.rs and the extensions of a
--                         default build under imap-types/src/extensions, one file each under the
--                         source's name: the types, `try_from` and `from`, and `Display` as
--                         `display`. Names is the `match` on a text without regard to case
--   Message/Response/Capabilities
--                         imap-types/src/response.rs: `From<Atom>` of Capability
--   Message/Continuation  the same file: `CommandContinuationRequestBasic::new`
--   Message/Packages      what the code takes from other packages, as the record `Packages`: the
--                         formatted dates of chrono, base64, and the order in which a `HashSet` is
--                         walked over
--   Encode/Writer         how an `encode_ctx` is put together: a function on a context, and a `do`
--                         block for a sequence of calls
--   Encode/Decimal        the decimal digits that the standard library writes for a number
--   Encode/Values, Items, SearchKeys, Bodies, Codes
--                         imap-codec/src/codec/encode.rs and imap-codec/src/extensions: the
--                         `encode_ctx` of each type as `encode_<type>`, and the functions of `utils`
--   Encode/Threads        imap-types/src/extensions/thread.rs: `Display` of Thread
--   Encode/Command, Responses
--                         imap-codec/src/codec/encode.rs: commands, greetings and responses of a
--                         default build, and the `encode` of the codecs
--   Encode/Writes, Reading, Rounds, Limited, Delivery, Settled, Strings, Patterns, Sends,
--   Sends/*, Command/Delivery, Command/Called, Responses/Delivery
--                         the way of an encoded message through the fragmentizer
--   Encode/Grammar, Spelled
--                         the grammar of the strings that are written
--   Message/Names/Reread, Auth/Reread, Response/Capabilities/Reread, Encode/Responses/Ambiguity
--                         names that are displayed and read again, and requests for continuation
--                         that can be told apart
--   Fragmentizer/Fragment, LineParser, LiteralParser, State, ParseTag
--                         imap-codec/src/fragmentizer.rs: the state is the record `Fragmentizer`
--                         with the fields of the struct; `progress` is `current_parser` (the
--                         first `match`), `parse_with` (the call of the parser) and `conclude`
--                         (the rest), and the other methods have the names of the source
--
-- How they interact: the fragmentizer stores the bytes that it receives, runs one of its two
-- parsers over them and moves the parsed bytes to the message buffer. A line that announces a
-- literal is followed by a literal. The decoder that reads a complete message is an argument of
-- `decode_message`, as in the source. Tags, strings and mailbox names are made of the core types.
-- Commands, greetings and responses are made of these and of the values of the other packages; the
-- encoder writes them as lines and literals for the fragmentizer on the other side of a connection.
--
-- Bounds and fuel: a literal's length is checked against 2 ^ 32 - 1 where the source uses
-- `checked_mul` and `checked_add`. The positions of type `usize` are unbounded. The loop around
-- `progress` and the collection of an iterator run on fuel; the results say how much is enough, and
-- `digits` has one more than the number that it writes. The walk over a tree of threads has a round
-- for each thread and one for the end of each list, and one more. The loops of the two parsers, of
-- `cleanup` and of `SequenceSetIter::next` are structural.
--
-- Not modelled: the grammar, which is built of the combinators of the package nom; what the
-- features that are off by default add; the constructors of commands and responses that convert
-- their arguments and do nothing else; the states of a connection; the validation of dates; Debug, serde and arbitrary;
-- `TagGenerator`, which is a global counter; the unvalidated constructors, which skip the checks by
-- design.
pub mod Prelude
pub mod Indicators
pub mod Escape
pub mod Core
pub mod Message
pub mod Encode
pub mod Fragmentizer
pub mod Mailbox
pub mod Sequence
