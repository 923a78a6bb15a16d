-- ===== src/Fragmentizer/State/Calls.antt =====
-- Any sequence of calls of the fragmentizer's methods (imap-codec/src/fragmentizer.rs).
use imap_codec.Prelude.{
  ℕ, ◌-◌, ◌≤◌, ◌≡◌, ◌∙◌, refl, sym, ap, false, Option, none, some, List, [], ◌∷◌, ◌++◌,
  append_assoc, append-nil, Bytes, length, take, arith, length-take, length-append,
  take-append_length, ltb,
}
use imap_codec.Fragmentizer.State.{
  Fragmentizer, Parser, new, with_limit, progress, enqueue_bytes, skip_message, poison_message,
}
use imap_codec.Fragmentizer.State.Limit.{truncated, overflows}
use imap_codec.Fragmentizer.State.Invariant.{
  IsValid, carried, started-IsValid, progress-IsValid, progress-max,
}

pub data Call : Type 0 where
  progress_call : Call
  enqueue_call : (bytes : Bytes) → Call
  skip_call : Call
  poison_call : Call

unfoldable pub perform : Call → Fragmentizer → Fragmentizer
perform progress_call f = (progress f).0
perform (enqueue_call bytes) f = enqueue_bytes f bytes
perform skip_call f = skip_message f
perform poison_call f = poison_message f

unfoldable pub perform_all : List Call → Fragmentizer → Fragmentizer
unfolding perform
perform_all [] f = f
perform_all (c ∷ calls) f = perform_all calls (perform c f)

-- What is gone from the front of a queue.
abbrev gone : Bytes → Bytes → Bytes
gone before after = take (length before - length after) before

-- The bytes of the current message that the calls took from the queue, where `parsed` are those
-- that were taken before. A message begins with `skip_message`, and with the `progress` behind a
-- complete one.
unfoldable pub parsed_by : List Call → Fragmentizer → Bytes → Bytes
unfolding perform
parsed_by [] f parsed = parsed
parsed_by (progress_call ∷ calls) f parsed =
    let f' = perform progress_call f in
    parsed_by calls f' (carried f.parser parsed ++ gone f.unparsed_buffer f'.unparsed_buffer)
parsed_by (enqueue_call bytes ∷ calls) f parsed =
    parsed_by calls (perform (enqueue_call bytes) f) parsed
parsed_by (skip_call ∷ calls) f parsed = parsed_by calls (perform skip_call f) []
parsed_by (poison_call ∷ calls) f parsed = parsed_by calls (perform poison_call f) parsed

-- All bytes that are enqueued.
abbrev pub received : List Call → Bytes
received [] = []
received (progress_call ∷ calls) = received calls
received (enqueue_call bytes ∷ calls) = bytes ++ received calls
received (skip_call ∷ calls) = received calls
received (poison_call ∷ calls) = received calls

-- The state is valid for the parsed bytes, and the bytes that arrived are those of earlier
-- messages, the parsed ones and those that wait, in this order.
pub record IsTracked (max : Option ℕ) (arrived : Bytes) (f : Fragmentizer) (parsed : Bytes)
    : Type 0 where
  pub valid : IsValid f parsed
  pub limit : f.max_message_size ≡ max
  pub earlier : Bytes
  pub kept : arrived ≡ earlier ++ (parsed ++ f.unparsed_buffer)

behind :
    (bytes : Bytes) {max : Option ℕ} {arrived all_arrived : Bytes} {f : Fragmentizer}
    {parsed : Bytes}
    → all_arrived ≡ bytes ++ arrived
    → IsTracked max arrived f parsed
    → IsTracked max all_arrived f parsed
behind bytes e t = record {
  valid = t.valid;
  limit = t.limit;
  earlier = bytes ++ t.earlier;
  kept = e ∙ rw (t.kept, append_assoc) refl;
}

gone-append : (read rest : Bytes) → gone (read ++ rest) rest ≡ read
gone-append read rest =
    let count : length (read ++ rest) - length rest ≡ length read =
      omega (arith, length-append read rest) in
    rw count (take-append_length read rest)

-- What a new message leaves behind.
finished : Option Parser → Bytes → Bytes
finished none parsed = parsed
finished (some p) parsed = []

finished-carried :
    (parser : Option Parser) (parsed : Bytes)
    → parsed ≡ finished parser parsed ++ carried parser parsed
unfolding finished
finished-carried none parsed = sym (append-nil parsed)
finished-carried (some p) parsed = refl

in_order :
    {parsed queue : Bytes} (front old read queue' rest : Bytes)
    → parsed ≡ front ++ old
    → queue ≡ read ++ queue'
    → parsed ++ (queue ++ rest) ≡ front ++ ((old ++ read) ++ (queue' ++ rest))
in_order {parsed} {queue} front old read queue' rest e t =
    ap (λ (u : Bytes). u ++ (queue ++ rest)) e
    ∙ ap (λ (u : Bytes). (front ++ old) ++ (u ++ rest)) t
    ∙ append_assoc front old ((read ++ queue') ++ rest)
    ∙ ap (λ (u : Bytes). front ++ (old ++ u)) (append_assoc read queue' rest)
    ∙ ap (λ (u : Bytes). front ++ u) (sym (append_assoc old read (queue' ++ rest)))

pub perform_all-IsTracked :
    (max : Option ℕ) (calls : List Call) (f : Fragmentizer) (parsed : Bytes)
    → IsValid f parsed
    → f.max_message_size ≡ max
    → IsTracked max
        (parsed ++ (f.unparsed_buffer ++ received calls))
        (perform_all calls f)
        (parsed_by calls f parsed)
unfolding perform_all parsed_by perform enqueue_bytes skip_message poison_message
perform_all-IsTracked max [] f parsed v m = record {
  valid = v;
  limit = m;
  earlier = [];
  kept = ap (λ (u : Bytes). parsed ++ u) (append-nil f.unparsed_buffer);
}
perform_all-IsTracked max (progress_call ∷ calls) f parsed v m =
    let p = progress-IsValid f parsed v in
    let f' = (progress f).0 in
    let read : gone f.unparsed_buffer f'.unparsed_buffer ≡ p.read =
      ap (λ u. gone u f'.unparsed_buffer) p.taken ∙ gone-append p.read f'.unparsed_buffer in
    let old = carried f.parser parsed in
    let rest = received calls in
    let order : parsed ++ (f.unparsed_buffer ++ rest)
        ≡ finished f.parser parsed ++ ((old ++ p.read) ++ (f'.unparsed_buffer ++ rest)) =
      in_order (finished f.parser parsed) old p.read f'.unparsed_buffer rest
        (finished-carried f.parser parsed) p.taken in
    rw read (
      behind (finished f.parser parsed) order
        (perform_all-IsTracked max calls f' (old ++ p.read) p.valid (progress-max f parsed v ∙ m)))
perform_all-IsTracked max (enqueue_call bytes ∷ calls) f parsed v m =
    behind []
      (ap (λ (u : Bytes). parsed ++ u)
        (sym (append_assoc f.unparsed_buffer bytes (received calls))))
      (perform_all-IsTracked max calls (enqueue_bytes f bytes) parsed
        (record { buffered = v.buffered; marked = v.marked; stands = v.stands }) m)
perform_all-IsTracked max (skip_call ∷ calls) f parsed v m =
    behind parsed refl
      (perform_all-IsTracked max calls (skip_message f) [] (started-IsValid f false) m)
perform_all-IsTracked max (poison_call ∷ calls) f parsed v m =
    perform_all-IsTracked max calls (poison_message f) parsed
      (record { buffered = v.buffered; marked = v.marked; stands = v.stands }) m

pub new-IsTracked :
    (size : ℕ) (calls : List Call)
    → IsTracked
        (some size)
        (received calls)
        (perform_all calls (new size))
        (parsed_by calls (new size) [])
unfolding new with_limit
new-IsTracked size calls =
    perform_all-IsTracked (some size) calls (new size) [] (started-IsValid (new size) false) refl

-- Behind any calls of `progress`, `enqueue_bytes`, `skip_message` and `poison_message` on a new
-- fragmentizer with a limit, let `parsed` be the bytes of the current message that `progress` took
-- from the queue. The message buffer is not longer than the limit, and holds as many of the parsed
-- bytes as the limit allows; the message is marked as too long exactly if there are more; and the
-- bytes that were enqueued are some of earlier messages, the parsed ones and those in the queue, in
-- this order.
pub perform_all-bounded :
    (size : ℕ) (calls : List Call)
    → let f = perform_all calls (new size) in
      let parsed = parsed_by calls (new size) [] in
      (length f.message_buffer ≤ size)
      × (f.message_buffer ≡ take size parsed)
      × (f.max_message_size_exceeded ≡ ltb size (length parsed))
      × ((earlier : Bytes) × (received calls ≡ earlier ++ (parsed ++ f.unparsed_buffer)))
perform_all-bounded size calls =
    let f = perform_all calls (new size) in
    let parsed = parsed_by calls (new size) [] in
    let t = new-IsTracked size calls in
    let buffer : f.message_buffer ≡ take size parsed =
      t.valid.buffered ∙ ap (λ o. truncated o parsed) t.limit in
    (
      rw buffer (omega (arith, length-take size parsed)),
      buffer,
      t.valid.marked ∙ ap (λ o. overflows o (length parsed)) t.limit,
      (t.earlier, t.kept),
    )
