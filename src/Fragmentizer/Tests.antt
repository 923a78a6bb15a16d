-- ===== src/Fragmentizer/Tests.antt =====
-- Runs of the fragmentizer (imap-codec/src/fragmentizer.rs) on the start of a command that
-- announces a literal.
use imap_codec.Prelude.{
  ℕ, ◌≡◌, ◌≤◌, ltb, ◌≢◌, ◌↔◌, refl, true, false, none, some, List, [], ◌∷◌, ◌++◌, Bytes, codes,
  length, take, drop, arith, Result, ok, err,
}
use imap_codec.Core.Literal.{sync}
use imap_codec.Fragmentizer.Fragment.{LiteralAnnouncement, cr_lf, FragmentInfo, line, literal}
use imap_codec.Fragmentizer.LineParser
use imap_codec.Fragmentizer.LineParser.{
  LineParser, plain, next_state, push_digit, checked_mul, checked_add, line_facts, step, other,
}
use imap_codec.Fragmentizer.LiteralParser
use imap_codec.Fragmentizer.State.{
  Fragmentizer, line_parser, literal_parser, new, with_limit, first_parser, dequeue_parsed_bytes,
  current_parser, parse_with, parser_after, conclude, progress, enqueue_bytes, poison_message,
  is_message_complete, fragment_bytes, decode_message,
}
use imap_codec.Fragmentizer.State.Run.{run, run_total, run-enqueue, Fits}
use imap_codec.Fragmentizer.State.Limit.{truncated}
use imap_codec.Fragmentizer.State.Invariant.{
  IsValid, Progressed, progress-IsValid, start_of, carried,
}
use imap_codec.Fragmentizer.State.Calls.{
  Call, perform, perform_all, perform_all-bounded, enqueue_call, progress_call, poison_call,
  parsed_by, received,
}
use imap_codec.Fragmentizer.State.Stream.{progress_found, progress_resumed}
use imap_codec.Fragmentizer.State.FragmentBytes.{fragment_bytes-progress}
use imap_codec.Fragmentizer.State.Decode.{
  decode_message-perform_all, poisoned_by, poisoned-decode_message, same_message,
}
use imap_codec.Fragmentizer.ParseTag.{decode_tag, decode_tag-eq-some_iff, IsTag}
use imap_codec.Core.Tag.{Tag}

abbrev command_start : Bytes
command_start = codes "A {3}\r\na"

abbrev command_rest : Bytes
command_rest = codes "bc\r\n"

abbrev announced : LiteralAnnouncement
announced = record { mode = sync; length = 3 }

-- The fragmentizer before the first bytes, behind them, and behind the message.
abbrev fresh : Fragmentizer
fresh = record {
  unparsed_buffer = [];
  max_message_size = some 20;
  max_message_size_exceeded = false;
  message_poisoned = false;
  message_buffer = [];
  parser = some (line_parser (record { start = 0; end = 0; latest_byte = other }));
}

abbrev in_literal : Fragmentizer
in_literal = record fresh {
  message_buffer = command_start;
  parser = some (literal_parser (record { start = 7; end = 8; remaining = 2 }));
}

fresh-new : new 20 ≡ fresh
unfolding new with_limit first_parser LineParser.new
fresh-new = refl

run-fresh :
    run 2 (enqueue_bytes fresh command_start)
    ≡ some (in_literal, line 0 7 (some announced) cr_lf ∷ [])
unfolding run progress current_parser first_parser parse_with conclude parser_after
    dequeue_parsed_bytes enqueue_bytes LineParser.parse LineParser.new step next_state plain
    push_digit checked_mul checked_add line_facts LiteralParser.parse LiteralParser.new
run-fresh = refl

run-in_literal :
    run 3 (enqueue_bytes in_literal command_rest)
    ≡ some (fresh, literal 7 10 ∷ line 10 12 none cr_lf ∷ [])
unfolding run progress current_parser first_parser parse_with conclude parser_after
    dequeue_parsed_bytes enqueue_bytes LineParser.parse LineParser.new step next_state plain
    push_digit checked_mul checked_add line_facts LiteralParser.parse LiteralParser.new
run-in_literal = refl

waiting-Fits : Fits (enqueue_bytes fresh command_start)
unfolding enqueue_bytes
waiting-Fits = omega arith

run-enqueue_example :
    run 5 (enqueue_bytes (enqueue_bytes fresh command_start) command_rest)
    ≡ some (fresh, line 0 7 (some announced) cr_lf ∷ literal 7 10 ∷ line 10 12 none cr_lf ∷ [])
run-enqueue_example =
    run-enqueue 2 3 (enqueue_bytes fresh command_start) command_rest waiting-Fits run-fresh
      run-in_literal

run_total_example :
    (f' : Fragmentizer) × (fragments : List FragmentInfo) × (run 17
        (enqueue_bytes fresh command_start)
      ≡ some (f', fragments))
run_total_example =
    run_total 17 (enqueue_bytes fresh command_start) waiting-Fits
      (unfold enqueue_bytes in omega arith)

fresh-IsValid : IsValid (enqueue_bytes fresh command_start) []
unfolding enqueue_bytes
fresh-IsValid = record { buffered = refl; marked = refl; stands = (refl, omega arith) }

progress-IsValid_example :
    let f = enqueue_bytes fresh command_start in
    let (f', found) = progress f in Progressed f f' found []
progress-IsValid_example = progress-IsValid (enqueue_bytes fresh command_start) [] fresh-IsValid

abbrev line_then_poison : List Call
line_then_poison =
    enqueue_call (codes "A\r\nB")
    ∷ progress_call
    ∷ enqueue_call (codes "C\n")
    ∷ progress_call
    ∷ poison_call
    ∷ []

perform_all-bounded_example :
    let f = perform_all line_then_poison (new 1) in
    let parsed = parsed_by line_then_poison (new 1) [] in
    (length f.message_buffer ≤ 1)
    × (f.message_buffer ≡ take 1 parsed)
    × (f.max_message_size_exceeded ≡ ltb 1 (length parsed))
    × ((earlier : Bytes) × (received line_then_poison ≡ earlier ++ (parsed ++ f.unparsed_buffer)))
perform_all-bounded_example = perform_all-bounded 1 line_then_poison

-- Of the two lines only the second one belongs to the current message.
line_then_poison-parsed_by : parsed_by line_then_poison (new 1) [] ≡ codes "BC\n"
unfolding parsed_by perform enqueue_bytes poison_message new with_limit progress current_parser
    first_parser parse_with conclude parser_after dequeue_parsed_bytes LineParser.parse
    LineParser.new step next_state plain line_facts
line_then_poison-parsed_by = refl

first_line :
    (progress (enqueue_bytes fresh command_start)).1 ≡ some (line 0 7 (some announced) cr_lf)
unfolding progress current_parser first_parser parse_with conclude dequeue_parsed_bytes
    enqueue_bytes LineParser.parse step next_state plain push_digit checked_mul checked_add
    line_facts
first_line = refl

first_progress :
    progress (enqueue_bytes fresh command_start)
    ≡ ((progress (enqueue_bytes fresh command_start)).0, some (line 0 7 (some announced) cr_lf))
first_progress = λ i. ((progress (enqueue_bytes fresh command_start)).0, first_line i)

progress_found_example :
    let f = enqueue_bytes fresh command_start in
    progress (enqueue_bytes f command_rest)
    ≡ (enqueue_bytes (progress f).0 command_rest, some (line 0 7 (some announced) cr_lf))
progress_found_example =
    progress_found (enqueue_bytes fresh command_start) command_rest waiting-Fits first_progress

-- One byte of the literal is missing.
abbrev at_literal : Fragmentizer
at_literal = record in_literal { unparsed_buffer = codes "b" }

abbrev in_literal_more : Fragmentizer
in_literal_more = record in_literal {
  message_buffer = codes "A {3}\r\nab";
  parser = some (literal_parser (record { start = 7; end = 9; remaining = 1 }));
}

literal_waits : progress at_literal ≡ (in_literal_more, none)
unfolding progress current_parser parse_with conclude dequeue_parsed_bytes LiteralParser.parse
literal_waits = refl

progress_resumed_example :
    progress (enqueue_bytes in_literal_more (codes "c"))
    ≡ progress (enqueue_bytes at_literal (codes "c"))
progress_resumed_example = progress_resumed at_literal (codes "c") (omega arith) literal_waits

fragment_bytes-progress_example :
    let f = enqueue_bytes fresh command_start in
    (read : Bytes) × (f.unparsed_buffer ≡ read ++ (progress f).0.unparsed_buffer)
    × (fragment_bytes (progress f).0 (line 0 7 (some announced) cr_lf)
        ≡ some (
            drop
              (start_of (current_parser f).1)
              (truncated f.max_message_size (carried f.parser [] ++ read))))
fragment_bytes-progress_example =
    fragment_bytes-progress (enqueue_bytes fresh command_start) [] fresh-IsValid first_line

-- A decoder that takes the first byte as the message.
abbrev first_byte : Bytes → Result (Bytes × ℕ) (Unit {0})
first_byte [] = err tt
first_byte (b ∷ bytes) = ok (bytes, b)

abbrev one_byte : Fragmentizer
one_byte = record fresh { message_buffer = codes "A" }

abbrev one_line : List Call
one_line = enqueue_call (codes "\nB") ∷ progress_call ∷ []

decode_message-perform_all_example :
    let parsed = parsed_by one_line (new 5) [] in
    (decode_message (perform_all one_line (new 5)) first_byte ≡ ok b'\n') ↔ (
      (length parsed ≤ 5)
      × (poisoned_by one_line (new 5) false ≡ false)
      × (first_byte parsed ≡ ok ([], b'\n')))
decode_message-perform_all_example = decode_message-perform_all first_byte 5 one_line b'\n'

one_line-poisoned_by : poisoned_by one_line (new 5) false ≡ false
unfolding poisoned_by perform enqueue_bytes new with_limit is_message_complete
one_line-poisoned_by = refl

one_line-parsed_by : parsed_by one_line (new 5) [] ≡ codes "\n"
unfolding parsed_by perform enqueue_bytes new with_limit progress current_parser first_parser
    parse_with conclude parser_after dequeue_parsed_bytes LineParser.parse LineParser.new step
    next_state plain line_facts
one_line-parsed_by = refl

poisoned-same_message :
    same_message (enqueue_call command_start ∷ progress_call ∷ []) (poison_message one_byte) ≡ true
unfolding same_message perform enqueue_bytes poison_message is_message_complete
poisoned-same_message = refl

poisoned-decode_message_example :
    decode_message
      (perform_all (enqueue_call command_start ∷ progress_call ∷ []) (poison_message one_byte))
      first_byte
    ≢ ok b'A'
poisoned-decode_message_example =
    poisoned-decode_message first_byte one_byte (enqueue_call command_start ∷ progress_call ∷ [])
      b'A' poisoned-same_message

abbrev tag_a : Tag
tag_a = record { inner = codes "A" }

decode_tag-eq-some_iff_example :
    (decode_tag in_literal ≡ some tag_a)
    ↔ (IsTag (codes "A") × ((rest : Bytes) × (command_start ≡ codes "A" ++ b' ' ∷ rest)))
decode_tag-eq-some_iff_example = decode_tag-eq-some_iff in_literal tag_a
