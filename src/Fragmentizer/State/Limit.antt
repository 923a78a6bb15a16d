-- ===== src/Fragmentizer/State/Limit.antt =====
-- The message size limit of the fragmentizer (imap-codec/src/fragmentizer.rs).
use imap_codec.Prelude.{
  ℕ, ◌+◌, ◌-◌, ◌≤◌, ◌≡◌, ◌∙◌, refl, ap, Bool, true, false, ◌||◌, Option, none, some, ◌++◌,
  append_assoc, Bytes, length, take, drop, ltb, arith, Option-cases, inl, inr, length-append,
  length-take, take-all, take-append, take-take-append,
}
use imap_codec.Fragmentizer.State.{Fragmentizer, dequeue_parsed_bytes}

-- What a limit leaves of a message, and whether it is exceeded by so many bytes.
abbrev pub truncated : Option ℕ → Bytes → Bytes
truncated none bytes = bytes
truncated (some size) bytes = take size bytes

abbrev pub overflows : Option ℕ → ℕ → Bool
overflows none n = false
overflows (some size) n = ltb size n

-- The buffer keeps to the limit: `size - message_buffer.len()` does not underflow.
abbrev pub FitsLimit : Option ℕ → Bytes → Type 0
FitsLimit none buffer = Unit
FitsLimit (some size) buffer = length buffer ≤ size

abbrev pub absorb : Fragmentizer → Bytes → Bytes → Fragmentizer
absorb f xs rest = record f {
  unparsed_buffer = rest;
  message_buffer = truncated f.max_message_size (f.message_buffer ++ xs);
  max_message_size_exceeded =
      f.max_message_size_exceeded
      || overflows f.max_message_size (length f.message_buffer + length xs);
}

or_true : (b : Bool) → (b || true) ≡ true
or_true true = refl
or_true false = refl

pub or_false : (b : Bool) → (b || false) ≡ b
or_false true = refl
or_false false = refl

-- `dequeue_parsed_bytes` moves the parsed bytes to the message buffer as far as the limit allows,
-- and marks the message if it does not allow all of them.
pub dequeue-absorb :
    (f : Fragmentizer) (count : ℕ)
    → count ≤ length f.unparsed_buffer
    → FitsLimit f.max_message_size f.message_buffer
    → dequeue_parsed_bytes f count
      ≡ absorb f (take count f.unparsed_buffer) (drop count f.unparsed_buffer)
unfolding dequeue_parsed_bytes
dequeue-absorb f count h fits = elim (Option-cases f.max_message_size) [
  | inl e ↦ ground (arith, or_false f.max_message_size_exceeded)
  | inr (size, e) ↦
      let xs = take count f.unparsed_buffer in
      let room = size - length f.message_buffer in
      ground (
        arith,
        or_false f.max_message_size_exceeded,
        or_true f.max_message_size_exceeded,
        length-take count f.unparsed_buffer,
        length-append f.message_buffer xs,
        take-all size (f.message_buffer ++ xs),
        take-all size f.message_buffer,
        take-append size f.message_buffer xs,
      )
]

-- The buffer keeps to the limit.
pub absorb-FitsLimit :
    (f : Fragmentizer) (xs rest : Bytes)
    → FitsLimit f.max_message_size (absorb f xs rest).message_buffer
absorb-FitsLimit f xs rest = elim (Option-cases f.max_message_size) [
  | inl e ↦ rw e tt
  | inr (size, e) ↦ rw e (omega (arith, length-take size (f.message_buffer ++ xs)))
]

pub truncated-truncated :
    (max : Option ℕ) (b ys : Bytes)
    → truncated max (truncated max b ++ ys) ≡ truncated max (b ++ ys)
truncated-truncated none b ys = refl
truncated-truncated (some size) b ys = take-take-append size b ys

overflows-append :
    (max : Option ℕ) (marked : Bool) (b xs ys : Bytes)
    → (marked || overflows max (length b + length xs))
        || overflows max (length (truncated max (b ++ xs)) + length ys)
      ≡ (marked || overflows max (length b + length (xs ++ ys)))
overflows-append none true b xs ys = refl
overflows-append (some size) true b xs ys = refl
overflows-append none false b xs ys = refl
overflows-append (some size) false b xs ys =
    ground (arith, length-append b xs, length-append xs ys, length-take size (b ++ xs))

-- Moving bytes in two rounds is moving them at once.
pub absorb-absorb :
    (f : Fragmentizer) (xs ys rest rest' : Bytes)
    → absorb (absorb f xs rest) ys rest' ≡ absorb f (xs ++ ys) rest'
absorb-absorb f xs ys rest rest' = λ i. record f {
  unparsed_buffer = rest';
  message_buffer =
      (truncated-truncated f.max_message_size (f.message_buffer ++ xs) ys
          ∙ ap (truncated f.max_message_size) (append_assoc f.message_buffer xs ys))
        i;
  max_message_size_exceeded =
      overflows-append f.max_message_size f.max_message_size_exceeded f.message_buffer xs ys i;
}
