-- ===== src/Fragmentizer/State/Invariant.antt =====
-- What the state of the fragmentizer (imap-codec/src/fragmentizer.rs) says of the bytes of the
-- current message.
use imap_codec.Prelude.{
  ℕ, ◌+◌, ◌≤◌, ◌≡◌, ◌∙◌, refl, sym, ap, Bool, false, Option, none, some, [], ◌∷◌, ◌++◌, Bytes,
  length, take, drop, arith, Option-cases, inl, inr, length-append, length-take, take-append-drop,
  take-nil, subst, ◌||◌,
}
use imap_codec.Fragmentizer.Fragment.{FragmentInfo, line, literal, range}
use imap_codec.Fragmentizer.LineParser
use imap_codec.Fragmentizer.LineParser.{LineParser}
use imap_codec.Fragmentizer.LiteralParser
use imap_codec.Fragmentizer.LiteralParser.{LiteralParser}
use imap_codec.Fragmentizer.State.{
  Fragmentizer, Parser, line_parser, literal_parser, current_parser, parse_with, parser_after,
  progress, first_parser,
}
use imap_codec.Fragmentizer.State.Limit.{
  FitsLimit, truncated, overflows, absorb, truncated-truncated,
}
use imap_codec.Fragmentizer.State.Progress.{
  next_parser, parse_with-count_le, current_parser-unparsed, progress_lem,
}

abbrev pub start_of : Parser → ℕ
start_of (line_parser p) = p.start
start_of (literal_parser p) = p.start

abbrev pub end_of : Parser → ℕ
end_of (line_parser p) = p.end
end_of (literal_parser p) = p.end

-- The position that the parser stands at in the message.
abbrev pub StandsAt : Option Parser → ℕ → Type 0
StandsAt none n = Unit
StandsAt (some p) n = (end_of p ≡ n) × (start_of p ≤ end_of p)

-- `parsed` are all bytes of the current message that were parsed so far: the buffer holds as many
-- of them as the limit allows, the mark says whether that is fewer, and the parser counts them.
pub record IsValid (f : Fragmentizer) (parsed : Bytes) : Type 0 where
  pub buffered : f.message_buffer ≡ truncated f.max_message_size parsed
  pub marked : f.max_message_size_exceeded ≡ overflows f.max_message_size (length parsed)
  pub stands : StandsAt f.parser (length parsed)

pub IsValid-FitsLimit :
    {f : Fragmentizer} {parsed : Bytes}
    → IsValid f parsed
    → FitsLimit f.max_message_size f.message_buffer
IsValid-FitsLimit {f} {parsed} v = elim (Option-cases f.max_message_size) [
  | inl e ↦ rw e tt
  | inr (size, e) ↦ rw e (rw (v.buffered, e) (omega (arith, length-take size parsed)))
]

-- The bytes of the message that `progress` goes on with: none if the last message is complete.
abbrev pub carried : Option Parser → Bytes → Bytes
carried none parsed = []
carried (some p) parsed = parsed

pub truncated-nil : (max : Option ℕ) → truncated max [] ≡ []
truncated-nil none = refl
truncated-nil (some size) = take-nil size

overflows-zero : (max : Option ℕ) → overflows max 0 ≡ false
overflows-zero none = refl
overflows-zero (some size) = ground arith

-- A message that has just begun.
pub started-IsValid :
    (f : Fragmentizer) (poisoned : Bool)
    → IsValid
        (record f {
          max_message_size_exceeded = false;
          message_poisoned = poisoned;
          message_buffer = [];
          parser = some first_parser;
        })
        []
unfolding first_parser
started-IsValid f poisoned = record {
  buffered = sym (truncated-nil f.max_message_size);
  marked = sym (overflows-zero f.max_message_size);
  stands = omega arith;
}

current_parser-max : (f : Fragmentizer) → (current_parser f).0.max_message_size ≡ f.max_message_size
unfolding current_parser
current_parser-max f = ground arith

pub progress-max :
    (f : Fragmentizer) (parsed : Bytes)
    → IsValid f parsed
    → (progress f).0.max_message_size ≡ f.max_message_size
progress-max f parsed v =
    ap (λ (c : Fragmentizer × Option FragmentInfo). c.0.max_message_size)
      (progress_lem f (IsValid-FitsLimit v))
    ∙ current_parser-max f

current_parser-IsValid :
    (f : Fragmentizer) (parsed : Bytes)
    → IsValid f parsed
    → let (f₁, p) = current_parser f in IsValid f₁ (carried f.parser parsed) × (f₁.parser ≡ some p)
unfolding current_parser
current_parser-IsValid f parsed v = elim (Option-cases f.parser) [
  | inl e ↦ rw e (started-IsValid f false, refl)
  | inr (p, e) ↦ rw e (rw e at v, refl)
]

line-counts :
    (p : LineParser) (bytes : Bytes)
    → let (p', count, found) = LineParser.parse p bytes in
      (p'.start ≡ p.start)
      × (p'.end ≡ p.end + count)
      × ((x : FragmentInfo) → found ≡ some x → range x ≡ (p.start, p.end + count))
unfolding LineParser.parse range
line-counts p [] = (refl, omega arith, λ x h. cc)
line-counts p (b ∷ bytes) =
    let (p', found) = LineParser.step p b in
    let (starts, ends, ranged) = line-counts p' bytes in
    unfold LineParser.step in (ground arith, ground arith, λ x h. ground (arith, ranged x))

pub parse_with-counts :
    (p : Parser) (bytes : Bytes)
    → let (p', count, found) = parse_with p bytes in
      (start_of p' ≡ start_of p)
      × (end_of p' ≡ end_of p + count)
      × ((x : FragmentInfo) → found ≡ some x → range x ≡ (start_of p, end_of p + count))
unfolding parse_with
parse_with-counts (line_parser p) bytes = line-counts p bytes
parse_with-counts (literal_parser p) bytes =
    unfold LiteralParser.parse range in (ground arith, ground arith, λ x h. ground arith)

-- What `progress` did: it parsed bytes off the front of the waiting ones, the state is valid for
-- the message with those bytes, and a fragment spans from where its parser started to the end of
-- what is parsed.
pub record Progressed (f f' : Fragmentizer) (found : Option FragmentInfo) (parsed : Bytes)
    : Type 0 where
  pub read : Bytes
  pub taken : f.unparsed_buffer ≡ read ++ f'.unparsed_buffer
  pub valid : IsValid f' (carried f.parser parsed ++ read)
  pub spans :
      (x : FragmentInfo)
      → found ≡ some x
      → range x ≡ (start_of (current_parser f).1, length (carried f.parser parsed ++ read))

overflows-absorbed :
    (max : Option ℕ) (xs ys : Bytes)
    → (overflows max (length xs) || overflows max (length (truncated max xs) + length ys))
      ≡ overflows max (length (xs ++ ys))
overflows-absorbed none xs ys = refl
overflows-absorbed (some size) xs ys = ground (arith, length-append xs ys, length-take size xs)

absorb-IsValid :
    (f : Fragmentizer) (parsed read rest : Bytes) (next : Option Parser)
    → IsValid f parsed
    → StandsAt next (length (parsed ++ read))
    → IsValid (record (absorb f read rest) { parser = next }) (parsed ++ read)
absorb-IsValid f parsed read rest next v stands = record {
  buffered = rw v.buffered (truncated-truncated f.max_message_size parsed read);
  marked = rw (v.marked, v.buffered) (overflows-absorbed f.max_message_size parsed read);
  stands = stands;
}

parser_after-StandsAt :
    (x : FragmentInfo) (start n : ℕ) → range x ≡ (start, n) → StandsAt (parser_after x) n
unfolding range parser_after
parser_after-StandsAt (line s e none ending) start n h = tt
parser_after-StandsAt (line s e (some a) ending) start n h = ground arith
parser_after-StandsAt (literal s e) start n h = ground arith

next_parser-StandsAt :
    (p : Parser) (found : Option FragmentInfo) (start n : ℕ)
    → StandsAt (some p) n
    → ((x : FragmentInfo) → found ≡ some x → range x ≡ (start, n))
    → StandsAt (next_parser p found) n
next_parser-StandsAt p none start n h ranged = h
next_parser-StandsAt p (some x) start n h ranged = parser_after-StandsAt x start n (ranged x refl)

-- From a state that is valid for the bytes parsed of the current message (none, if the last
-- message is complete), `progress` takes bytes from the front of the waiting ones and leaves a
-- state that is valid for the parsed bytes with these behind them; a fragment that it returns
-- spans from the start of the parser to the last of these bytes.
pub progress-IsValid :
    (f : Fragmentizer) (parsed : Bytes)
    → IsValid f parsed
    → let (f', found) = progress f in Progressed f f' found parsed
progress-IsValid f parsed v =
    let (f₁, p) = current_parser f in
    let u = f₁.unparsed_buffer in
    let (p', count, found) = parse_with p u in
    let old = carried f.parser parsed in
    let read = take count u in
    let (v₁, set_up) = current_parser-IsValid f parsed v in
    let here : StandsAt (some p) (length old) = rw set_up at v₁.stands in
    let (starts, ends, ranged) = parse_with-counts p u in
    let size : length (old ++ read) ≡ length old + count =
      omega (arith, length-append {0} old read, length-take {0} count u, parse_with-count_le p u) in
    let spans : (x : FragmentInfo) → found ≡ some x → range x ≡ (start_of p, length (old ++ read)) =
      λ x h. ranged x h ∙ rw (here.0, size) in
    let stands =
      next_parser-StandsAt p' found (start_of p) (length (old ++ read))
        (rw (ends, starts) (omega arith)) spans in
    subst (λ (c : Fragmentizer × Option FragmentInfo). Progressed f c.0 c.1 parsed)
      (sym (progress_lem f (IsValid-FitsLimit v)))
      (record {
        read = read;
        taken = sym (current_parser-unparsed f) ∙ sym (take-append-drop count u);
        valid = absorb-IsValid f₁ old read (drop count u) (next_parser p' found) v₁ stands;
        spans = spans;
      })
