-- ===== src/Encode/Limited.antt =====
-- Messages that keep to the limit of the fragmentizer (imap-codec/src/fragmentizer.rs).
use mathlib.Core.Option
use imap_codec.Prelude.{
  ℕ, zero, suc, ◌+◌, ◌≤◌, ◌≡◌, ◌∙◌, refl, ap, subst, true, false, Option, none, some, List, [], ◌∷◌,
  ◌++◌, Bytes, length, take, drop, arith, length-append, take-all, ltb, Option-cases, inl, inr,
}
use imap_codec.Fragmentizer.Fragment.{FragmentInfo}
use imap_codec.Fragmentizer.State.{
  Fragmentizer, Parser, current_parser, parse_with, progress, fragment_bytes, is_message_complete,
  enqueue_bytes, without_max_message_size, with_limit, new, first_parser,
}
use imap_codec.Fragmentizer.State.Limit.{or_false}
use imap_codec.Fragmentizer.State.Progress.{progress_lem, concluded, next_parser}
use imap_codec.Encode.Reading.{read_message, prepend}

-- The same state with a limit.
abbrev limited : ℕ → Fragmentizer → Fragmentizer
limited size f = record f { max_message_size = some size }

-- What `progress` makes of the result of the parser, if there is no limit.
abbrev after : Fragmentizer → Parser × ℕ × Option FragmentInfo → Fragmentizer
after f (q, count, found) = record f {
  unparsed_buffer = drop count f.unparsed_buffer;
  message_buffer = f.message_buffer ++ take count f.unparsed_buffer;
  parser = next_parser q found;
}

concluded-unlimited :
    (f : Fragmentizer) (r : Parser × ℕ × Option FragmentInfo)
    → f.max_message_size ≡ none
    → concluded f r ≡ (after f r, r.2)
concluded-unlimited f (q, count, found) m = rw (m, or_false) refl

concluded-limited :
    (size : ℕ) (f : Fragmentizer) (r : Parser × ℕ × Option FragmentInfo)
    → length (after f r).message_buffer ≤ size
    → concluded (limited size f) r ≡ (limited size (after f r), r.2)
concluded-limited size f (q, count, found) h =
    let xs = take count f.unparsed_buffer in
    let fits : ltb size (length f.message_buffer + length xs) ≡ false =
      ground (arith, length-append f.message_buffer xs) in
    rw (fits, or_false, take-all size (f.message_buffer ++ xs) h) refl

module _ (f : Fragmentizer) (p : Parser) (reads : f.parser ≡ some p)
    (unlimited : f.max_message_size ≡ none) where
  progress-unlimited :
      progress f ≡ (after f (parse_with p f.unparsed_buffer), (parse_with p f.unparsed_buffer).2)
  unfolding current_parser
  progress-unlimited =
      let start : current_parser f ≡ (f, p) = rw reads refl in
      progress_lem f (rw unlimited tt)
      ∙ ap (λ (s : Fragmentizer × Parser). concluded (s.0) (parse_with s.1 (s.0).unparsed_buffer))
          start
      ∙ concluded-unlimited f (parse_with p f.unparsed_buffer) unlimited

  progress-limited :
      (size : ℕ)
      → length (after f (parse_with p f.unparsed_buffer)).message_buffer ≤ size
      → progress (limited size f) ≡ (
        limited size (after f (parse_with p f.unparsed_buffer)),
        (parse_with p f.unparsed_buffer).2,
      )
  unfolding current_parser
  progress-limited size h =
      let r = parse_with p f.unparsed_buffer in
      let start : current_parser (limited size f) ≡ (limited size f, p) = rw reads refl in
      let fits : length f.message_buffer ≤ size =
        omega (arith, h, length-append f.message_buffer (take (r.1) f.unparsed_buffer)) in
      progress_lem (limited size f) fits
      ∙ ap (λ (s : Fragmentizer × Parser). concluded (s.0) (parse_with s.1 (s.0).unparsed_buffer))
          start
      ∙ concluded-limited size f r h

-- What `read_message` makes of the result of `progress`.
round : ℕ → Fragmentizer × Option FragmentInfo → Option (Fragmentizer × List Bytes)
round fuel (f, none) = none
round fuel (f, some found) = elim (fragment_bytes f found) [
  | none ↦ none
  | some part ↦ elim (is_message_complete f) [
    | true ↦ some (f, part ∷ [])
    | false ↦ Option.map (prepend part) (read_message fuel f)
  ]
]

read_message-round :
    (fuel : ℕ) (f : Fragmentizer) → read_message (suc fuel) f ≡ round fuel (progress f)
unfolding read_message round
read_message-round fuel f = go (progress f)
  where
    go :
        (r : Fragmentizer × Option FragmentInfo)
        → (elim r.1 [
          | none ↦ none
          | some found ↦ elim (fragment_bytes (r.0) found) [
            | none ↦ none
            | some part ↦ elim (is_message_complete (r.0)) [
              | true ↦ some (r.0, part ∷ [])
              | false ↦ Option.map (prepend part) (read_message fuel (r.0))
            ]
          ]
        ])
          ≡ round fuel r
    go (f', none) = refl
    go (f', some found) = refl

module _ (fuel : ℕ) (f : Fragmentizer) (found : FragmentInfo) where
  round_panic : fragment_bytes f found ≡ none → round fuel (f, some found) ≡ none
  unfolding round
  round_panic b = rw (round, b) refl

  round_complete :
      {part : Bytes}
      → fragment_bytes f found ≡ some part
      → is_message_complete f ≡ true
      → round fuel (f, some found) ≡ some (f, part ∷ [])
  unfolding round
  round_complete b e = rw (round, b, e) refl

  round_more :
      {part : Bytes}
      → fragment_bytes f found ≡ some part
      → is_message_complete f ≡ false
      → round fuel (f, some found) ≡ Option.map (prepend part) (read_message fuel f)
  unfolding round
  round_more b e = rw (round, b, e) refl

-- A result without a limit: the buffer only grows, and with a limit that is as large as the buffer
-- at the end the result is the same.
abbrev Keeps :
    ℕ
    → (Fragmentizer → Option (Fragmentizer × List Bytes))
    → Fragmentizer
    → Option (Fragmentizer × List Bytes)
    → Type 0
Keeps size read f none = Unit
Keeps size read f (some (f', parts)) =
    (length f.message_buffer ≤ length f'.message_buffer)
    × (length f'.message_buffer ≤ size → read (limited size f) ≡ some (limited size f', parts))

module _ (size fuel : ℕ) (f g : Fragmentizer) (x : Option FragmentInfo)
    (read : Fragmentizer → Option (Fragmentizer × List Bytes))
    (grows : length f.message_buffer ≤ length g.message_buffer)
    (reads_on : length g.message_buffer ≤ size
      → read (limited size f) ≡ round fuel (limited size g, x)) where
  -- The rest of the message is read.
  rest-Keeps :
      (part : Bytes) (o : Option (Fragmentizer × List Bytes))
      → round fuel (limited size g, x)
        ≡ Option.map (prepend part) (read_message fuel (limited size g))
      → Keeps size (read_message fuel) g o
      → Keeps size read f (Option.map (prepend part) o)
  rest-Keeps part none e k = tt
  rest-Keeps part (some (f', parts)) e (grows', same) = (
    omega (arith, grows, grows'),
    λ h. reads_on (omega (arith, grows', h)) ∙ e ∙ ap (Option.map (prepend part)) (same h),
  )

  round-Keeps :
      ((p : Parser) → g.parser ≡ some p → Keeps size (read_message fuel) g (read_message fuel g))
      → Keeps size read f (round fuel (g, x))
  unfolding is_message_complete fragment_bytes
  round-Keeps more = elim (Option-cases x) [
    | inl e ↦ rw e (unfold round in tt)
    | inr (found, e) ↦
        let same : round fuel (limited size g, x) ≡ round fuel (limited size g, some found) =
          ap (λ y. round fuel (limited size g, y)) e in
        elim (Option-cases (fragment_bytes g found)) [
          | inl b ↦ rw (e, round_panic fuel g found b) tt
          | inr (part, b) ↦ elim (Option-cases g.parser) [
            | inl closed ↦
                let complete : is_message_complete g ≡ true = rw closed refl in
                rw (e, round_complete fuel g found b complete)
                  (
                    grows,
                    λ h. reads_on h ∙ same ∙ round_complete fuel (limited size g) found b complete,
                  )
            | inr (p, at_parser) ↦
                let incomplete : is_message_complete g ≡ false = rw at_parser refl in
                rw (e, round_more fuel g found b incomplete)
                  (rest-Keeps part (read_message fuel g)
                    (same ∙ round_more fuel (limited size g) found b incomplete) (more p at_parser))
          ]
        ]
  ]

read_message-Keeps :
    (size fuel : ℕ) (f : Fragmentizer) (p : Parser)
    → f.parser ≡ some p
    → f.max_message_size ≡ none
    → Keeps size (read_message fuel) f (read_message fuel f)
read_message-Keeps size zero f p reads unlimited = unfold read_message in tt
read_message-Keeps size (suc fuel) f p reads unlimited =
    let r = parse_with p f.unparsed_buffer in
    let g = after f r in
    let e = read_message-round fuel f ∙ ap (round fuel) (progress-unlimited f p reads unlimited) in
    rw e (
      round-Keeps size fuel f g (r.2) (read_message (suc fuel))
        (omega (arith, length-append f.message_buffer (take (r.1) f.unparsed_buffer)))
        (λ h.
          read_message-round fuel (limited size f)
          ∙ ap (round fuel) (progress-limited f p reads unlimited size h))
        (λ p' at_parser. read_message-Keeps size fuel g p' at_parser unlimited))

-- The limit does not matter for a message that keeps to it: if one message is read without a limit,
-- and all its bytes are no more than the limit of another fragmentizer, this one reads the same
-- fragments from the same bytes, and ends in the same state but for its limit.
pub read_message-new :
    (size fuel : ℕ) (bytes : Bytes) {f' : Fragmentizer} {parts : List Bytes}
    → read_message fuel (enqueue_bytes without_max_message_size bytes) ≡ some (f', parts)
    → length f'.message_buffer ≤ size
    → read_message fuel (enqueue_bytes (new size) bytes)
      ≡ some (record f' { max_message_size = some size }, parts)
unfolding enqueue_bytes without_max_message_size new with_limit
read_message-new size fuel bytes h fits =
    let start = enqueue_bytes without_max_message_size bytes in
    let k = read_message-Keeps size fuel start (first_parser) refl refl in
    (subst (Keeps size (read_message fuel) start) h k).1 fits
