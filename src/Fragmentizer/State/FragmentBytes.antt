-- ===== src/Fragmentizer/State/FragmentBytes.antt =====
-- The bytes of a fragment (`Fragmentizer::fragment_bytes` of imap-codec/src/fragmentizer.rs).
use imap_codec.Prelude.{
  ℕ, ◌-◌, ◌≤◌, ◌≡◌, ◌∙◌, ap, Option, none, some, ◌++◌, min, Bytes, length, take, drop, arith, inl,
  inr, length-take, length-drop, take-all, drop-all, take-nil, leb, Bool-cases, leb→le,
}
use imap_codec.Fragmentizer.Fragment.{FragmentInfo, slice, slice_inside, fragment_bytes_of}
use imap_codec.Fragmentizer.State.{Fragmentizer, progress, fragment_bytes, current_parser}
use imap_codec.Fragmentizer.State.Limit.{truncated}
use imap_codec.Fragmentizer.State.Invariant.{
  IsValid, progress-IsValid, progress-max, start_of, carried,
}

-- From a start to the end, or nothing for a start behind the end.
take-drop_to_end :
    (buffer : Bytes) (start : ℕ)
    → let from = min start (length buffer) in
      take (length buffer - from) (drop from buffer) ≡ drop start buffer
take-drop_to_end buffer start = elim (Bool-cases (leb start (length buffer))) [
  | inl inside ↦
      let start_in : min start (length buffer) ≡ start =
        omega (arith, leb→le start (length buffer) inside) in
      rw start_in (
        take-all (length buffer - start) (drop start buffer)
          (omega (arith, length-drop start buffer)))
  | inr beyond ↦
      let past : length buffer ≤ start = ground arith in
      let start_out : min start (length buffer) ≡ length buffer = omega arith in
      let nothing = drop-all start buffer past in
      let rest = drop-all (length buffer) buffer (omega arith) in
      rw (start_out, nothing, rest) (take-nil (length buffer - length buffer))
]

-- A range that reaches past the buffer is cut at its end.
slice_to_end :
    (buffer : Bytes) (start end : ℕ)
    → length buffer ≤ end
    → slice (min start (length buffer)) (min end (length buffer)) buffer ≡ some (drop start buffer)
slice_to_end buffer start end h =
    let size = length buffer in
    let end_in : min end size ≡ size = omega arith in
    ap (λ (e : ℕ). slice (min start size) e buffer) end_in
    ∙ slice_inside (min start size) size buffer (omega arith) (omega arith)
    ∙ ap some (take-drop_to_end buffer start)

length-truncated : (max : Option ℕ) (bytes : Bytes) → length (truncated max bytes) ≤ length bytes
length-truncated none bytes = omega arith
length-truncated (some size) bytes = omega (arith, length-take size bytes)

-- From a valid state, `fragment_bytes` does not panic on the fragment that `progress` has just found,
-- and returns the bytes of the message from the fragment's start on, as far as the limit has kept
-- them.
pub fragment_bytes-progress :
    (f : Fragmentizer) (parsed : Bytes) {x : FragmentInfo}
    → IsValid f parsed
    → (progress f).1 ≡ some x
    → (read : Bytes) × (f.unparsed_buffer ≡ read ++ (progress f).0.unparsed_buffer)
      × (fragment_bytes (progress f).0 x
          ≡ some (
              drop
                (start_of (current_parser f).1)
                (truncated f.max_message_size (carried f.parser parsed ++ read))))
unfolding fragment_bytes fragment_bytes_of
fragment_bytes-progress f parsed {x} v h =
    let f' = (progress f).0 in
    let p = progress-IsValid f parsed v in
    let old = carried f.parser parsed in
    let start = start_of (current_parser f).1 in
    let end = length (old ++ p.read) in
    let buffer : f'.message_buffer ≡ truncated f.max_message_size (old ++ p.read) =
      p.valid.buffered ∙ ap (λ m. truncated m (old ++ p.read)) (progress-max f parsed v) in
    (
      p.read,
      p.taken,
      rw (p.spans x h) (
          slice_to_end f'.message_buffer start end
            (rw buffer (length-truncated f.max_message_size (old ++ p.read)))
          ∙ ap (λ (b : Bytes). some (drop start b)) buffer),
    )
