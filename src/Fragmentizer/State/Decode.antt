-- ===== src/Fragmentizer/State/Decode.antt =====
-- Decoding and poisoning of messages (imap-codec/src/fragmentizer.rs).
use imap_codec.Prelude.{
  ℕ, ◌≤◌, ◌≡◌, ◌≢◌, ◌∙◌, ◌↔◌, refl, sym, ap, length, take-all, Bool, true, false, ◌&&◌, not, Option,
  none, some, List, [], ◌∷◌, Bytes, arith, Result, ok, err, if◌then◌else◌,
}
use imap_codec.Fragmentizer.Fragment.{FragmentInfo}
use imap_codec.Fragmentizer.State.{
  Fragmentizer, Parser, decoded_message, progress, conclude, dequeue_parsed_bytes, current_parser,
  parse_with, enqueue_bytes, is_message_complete, poison_message, decode_message, message_too_long,
  message_poisoned, new, with_limit, skip_message,
}
use imap_codec.Fragmentizer.State.Calls.{
  Call, progress_call, enqueue_call, skip_call, poison_call, perform, perform_all, parsed_by,
  perform_all-bounded,
}

decode_message→ok {ℓ κ} :
    {M : Type ℓ} {E : Type κ} {message : M} (buffer : Bytes) (exceeded poisoned : Bool)
    (decoded : Result (Bytes × M) E)
    → (if exceeded
        then err (message_too_long buffer)
        else if poisoned
        then err (message_poisoned buffer)
        else decoded_message decoded)
      ≡ ok message
    → (exceeded ≡ false) × (poisoned ≡ false) × (decoded ≡ ok ([], message))
unfolding decoded_message
decode_message→ok buffer true poisoned decoded h = cc
decode_message→ok buffer false true decoded h = cc
decode_message→ok buffer false false (err e) h = cc
decode_message→ok buffer false false (ok ([], m)) h = (refl, refl, cc)
decode_message→ok buffer false false (ok (b ∷ bytes, m)) h = cc

module _ {ℓ κ} {M : Type ℓ} {E : Type κ} (decode : Bytes → Result (Bytes × M) E)
    (f : Fragmentizer) where
  decode_message-eq-ok_iff :
      (message : M)
      → (decode_message f decode ≡ ok message) ↔ (
          (f.max_message_size_exceeded ≡ false)
          × (f.message_poisoned ≡ false)
          × (decode f.message_buffer ≡ ok ([], message)))
  unfolding decode_message
  decode_message-eq-ok_iff message = (
    decode_message→ok f.message_buffer f.max_message_size_exceeded f.message_poisoned
        (decode f.message_buffer),
    λ (e, p, d). rw (e, p, d),
  )

-- Calls that stay within one message: no skip, and no `progress` once it is complete.
unfoldable pub same_message : List Call → Fragmentizer → Bool
same_message [] f = true
same_message (progress_call ∷ calls) f =
    not (is_message_complete f) && same_message calls (perform progress_call f)
same_message (enqueue_call bytes ∷ calls) f = same_message calls (perform (enqueue_call bytes) f)
same_message (skip_call ∷ calls) f = false
same_message (poison_call ∷ calls) f = same_message calls (perform poison_call f)

dequeue-poisoned :
    (f : Fragmentizer) (count : ℕ)
    → (dequeue_parsed_bytes f count).message_poisoned ≡ f.message_poisoned
unfolding dequeue_parsed_bytes
dequeue-poisoned f count = ground arith

conclude-poisoned :
    (f : Fragmentizer) (r : Parser × ℕ × Option FragmentInfo)
    → (conclude f r).0.message_poisoned ≡ f.message_poisoned
unfolding conclude
conclude-poisoned f (p, count, none) = dequeue-poisoned (record f { parser = some p }) count
conclude-poisoned f (p, count, some x) = dequeue-poisoned (record f { parser = some p }) count

current_parser-poisoned :
    (f : Fragmentizer)
    → is_message_complete f ≡ false
    → (current_parser f).0.message_poisoned ≡ f.message_poisoned
unfolding current_parser is_message_complete
current_parser-poisoned f h = ground arith

not-and : (a b : Bool) → (not a && b) ≡ true → (a ≡ false) × (b ≡ true)
not-and true b h = cc
not-and false b h = (refl, h)

perform-poisoned :
    (c : Call) (calls : List Call) (f : Fragmentizer)
    → same_message (c ∷ calls) f ≡ true
    → f.message_poisoned ≡ true
    → ((perform c f).message_poisoned ≡ true) × (same_message calls (perform c f) ≡ true)
unfolding same_message perform progress enqueue_bytes poison_message
perform-poisoned progress_call calls f h p =
    let (incomplete, rest) = not-and (is_message_complete f) _ h in
    let (f₁, parser) = current_parser f in
    (
      conclude-poisoned f₁ (parse_with parser f₁.unparsed_buffer)
          ∙ current_parser-poisoned f incomplete
          ∙ p,
      rest,
    )
perform-poisoned (enqueue_call bytes) calls f h p = (p, h)
perform-poisoned skip_call calls f h p = cc
perform-poisoned poison_call calls f h p = (refl, h)

still_poisoned :
    (calls : List Call) (f : Fragmentizer)
    → same_message calls f ≡ true
    → f.message_poisoned ≡ true
    → (perform_all calls f).message_poisoned ≡ true
unfolding perform_all
still_poisoned [] f h p = p
still_poisoned (c ∷ calls) f h p =
    let (p', h') = perform-poisoned c calls f h p in still_poisoned calls (perform c f) h' p'

-- A poisoned message is never returned: for calls that stay within the message (no skip, and no
-- `progress` once it is complete), whatever is enqueued, no decoder makes `decode_message` return
-- a message behind them.
pub poisoned-decode_message {ℓ κ} :
    {M : Type ℓ} {E : Type κ} (decode : Bytes → Result (Bytes × M) E) (f : Fragmentizer)
    (calls : List Call) (message : M)
    → same_message calls (poison_message f) ≡ true
    → decode_message (perform_all calls (poison_message f)) decode ≢ ok message
poisoned-decode_message decode f calls message h e =
    let g = perform_all calls (poison_message f) in
    let clean = ((decode_message-eq-ok_iff decode g message).0 e).1 in
    let poisoned = still_poisoned calls (poison_message f) h (unfold poison_message in refl) in cc

-- Whether the current message is poisoned behind the calls: `poison_message` was called for it.
unfoldable pub poisoned_by : List Call → Fragmentizer → Bool → Bool
unfolding perform
poisoned_by [] f poisoned = poisoned
poisoned_by (progress_call ∷ calls) f poisoned =
    poisoned_by calls (perform progress_call f) (if is_message_complete f then false else poisoned)
poisoned_by (enqueue_call bytes ∷ calls) f poisoned =
    poisoned_by calls (perform (enqueue_call bytes) f) poisoned
poisoned_by (skip_call ∷ calls) f poisoned = poisoned_by calls (perform skip_call f) false
poisoned_by (poison_call ∷ calls) f poisoned = poisoned_by calls (perform poison_call f) true

progress-poisoned :
    (f : Fragmentizer)
    → (progress f).0.message_poisoned
      ≡ (if is_message_complete f then false else f.message_poisoned)
unfolding progress current_parser is_message_complete
progress-poisoned f =
    let (f₁, parser) = current_parser f in
    conclude-poisoned f₁ (parse_with parser f₁.unparsed_buffer) ∙ ground arith

perform_all-poisoned :
    (calls : List Call) (f : Fragmentizer)
    → (perform_all calls f).message_poisoned ≡ poisoned_by calls f f.message_poisoned
unfolding perform_all poisoned_by perform enqueue_bytes skip_message poison_message
perform_all-poisoned [] f = refl
perform_all-poisoned (progress_call ∷ calls) f =
    perform_all-poisoned calls (progress f).0
    ∙ ap (poisoned_by calls (progress f).0) (progress-poisoned f)
perform_all-poisoned (enqueue_call bytes ∷ calls) f =
    perform_all-poisoned calls (enqueue_bytes f bytes)
perform_all-poisoned (skip_call ∷ calls) f = perform_all-poisoned calls (skip_message f)
perform_all-poisoned (poison_call ∷ calls) f = perform_all-poisoned calls (poison_message f)

-- What `decode_message` returns behind any calls on a new fragmentizer with a limit: a message
-- exactly when the bytes of the current message that `progress` took from the queue are not more
-- than the limit, `poison_message` was not called since the message began, and the decoder takes
-- these bytes, all of them, for the message.
pub decode_message-perform_all {ℓ κ} :
    {M : Type ℓ} {E : Type κ} (decode : Bytes → Result (Bytes × M) E) (size : ℕ) (calls : List Call)
    (message : M)
    → let parsed = parsed_by calls (new size) [] in
      (decode_message (perform_all calls (new size)) decode ≡ ok message) ↔ (
        (length parsed ≤ size)
        × (poisoned_by calls (new size) false ≡ false)
        × (decode parsed ≡ ok ([], message)))
decode_message-perform_all decode size calls message =
    let f = perform_all calls (new size) in
    let parsed = parsed_by calls (new size) [] in
    let (bounded, buffered, marked, order) = perform_all-bounded size calls in
    let start : (new size).message_poisoned ≡ false = unfold new with_limit in refl in
    let flag : f.message_poisoned ≡ poisoned_by calls (new size) false =
      perform_all-poisoned calls (new size) ∙ ap (poisoned_by calls (new size)) start in
    let (returned, accepted) = decode_message-eq-ok_iff decode f message in
    let whole : length parsed ≤ size → f.message_buffer ≡ parsed =
      λ fits. buffered ∙ take-all size parsed fits in
    (
      λ h.
          let (complete, clean, decoded) = returned h in
          let within = sym marked ∙ complete in
          let fits : length parsed ≤ size = ground (arith, within) in
          (fits, sym flag ∙ clean, sym (ap decode (whole fits)) ∙ decoded),
      λ (fits, clean, decoded).
          accepted (marked ∙ ground arith, flag ∙ clean, ap decode (whole fits) ∙ decoded),
    )
