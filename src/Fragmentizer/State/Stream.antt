-- ===== src/Fragmentizer/State/Stream.antt =====
-- The fragmentizer of imap-codec/src/fragmentizer.rs over input that arrives in pieces.
use imap_codec.Prelude.{
  ℕ, ◌+◌, ◌≤◌, ◌≡◌, ◌∙◌, refl, sym, ap, Option, none, some, [], ◌++◌, Bytes, length, take, drop,
  arith, take-all, drop-all, take-append_le, drop-append_le, take-length_add, drop-length_add,
}
use imap_codec.Fragmentizer.Fragment.{FragmentInfo}
use imap_codec.Fragmentizer.State.{
  Fragmentizer, Parser, current_parser, parse_with, progress, enqueue_bytes,
}
use imap_codec.Fragmentizer.State.Limit.{FitsLimit, absorb-absorb, absorb-FitsLimit}
use imap_codec.Fragmentizer.State.Progress.{
  concluded, next_parser, continue, parse_with-append, parse_with-none, parse_with-count_le,
  progress_lem,
}

current_parser-enqueue :
    (f : Fragmentizer) (ys : Bytes)
    → current_parser (enqueue_bytes f ys)
      ≡ (enqueue_bytes (current_parser f).0 ys, (current_parser f).1)
unfolding current_parser enqueue_bytes
current_parser-enqueue f ys = ground arith

-- A fragment that was found stays the same if more bytes wait behind it.
concluded_found :
    (f : Fragmentizer) (ys : Bytes) (p : Parser) (count : ℕ) (found : FragmentInfo)
    → count ≤ length f.unparsed_buffer
    → concluded (enqueue_bytes f ys) (p, count, some found)
      ≡ (enqueue_bytes (concluded f (p, count, some found)).0 ys, some found)
unfolding enqueue_bytes
concluded_found f ys p count found h =
    rw (take-append_le count f.unparsed_buffer ys h, drop-append_le count f.unparsed_buffer ys h)

-- Bytes that were parsed without finding a fragment count as the start of the next ones.
concluded_resumed :
    (f : Fragmentizer) (ys : Bytes) (p p' : Parser) (more : ℕ) (found : Option FragmentInfo)
    → let u = f.unparsed_buffer in
      concluded (enqueue_bytes (concluded f (p, length u, none)).0 ys) (p', more, found)
      ≡ concluded (enqueue_bytes f ys) (p', length u + more, found)
unfolding enqueue_bytes
concluded_resumed f ys p p' more found =
    let u = f.unparsed_buffer in
    rw
      (
        take-all (length u) u (omega arith),
        drop-all (length u) u (omega arith),
        take-length_add u ys more,
        drop-length_add u ys more,
      )
      (λ i. (
        record (absorb-absorb f u (take more ys) [] (drop more ys) i) {
          parser = next_parser p' found;
        },
        found,
      ))

progress-enqueue :
    (f : Fragmentizer) (ys : Bytes)
    → FitsLimit f.max_message_size f.message_buffer
    → let (f₁, p) = current_parser f in
      progress (enqueue_bytes f ys)
      ≡ concluded (enqueue_bytes f₁ ys) (continue ys (parse_with p f₁.unparsed_buffer))
progress-enqueue f ys fits =
    let (f₁, p) = current_parser f in
    unfold enqueue_bytes in
    progress_lem (enqueue_bytes f ys) fits
    ∙ ap (λ (c : Fragmentizer × Parser). concluded c.0 (parse_with c.1 c.0.unparsed_buffer))
        (current_parser-enqueue f ys)
    ∙ ap (concluded (enqueue_bytes f₁ ys)) (parse_with-append p f₁.unparsed_buffer ys)

module _ (f : Fragmentizer) (ys : Bytes) where
  found_of :
      {f' : Fragmentizer} {found : FragmentInfo} (r : Parser × ℕ × Option FragmentInfo)
      → r.1 ≤ length f.unparsed_buffer
      → concluded f r ≡ (f', some found)
      → concluded (enqueue_bytes f ys) (continue ys r) ≡ (enqueue_bytes f' ys, some found)
  found_of (p, count, none) h e = cc
  found_of (p, count, some x) h e =
      concluded_found f ys p count x h
      ∙ ap (λ (c : Fragmentizer × Option FragmentInfo). (enqueue_bytes c.0 ys, c.1)) e

  waiting :
      (p : Parser)
      → let f' = (concluded f (p, length f.unparsed_buffer, none)).0 in
        progress (enqueue_bytes f' ys) ≡ concluded (enqueue_bytes f' ys) (parse_with p ys)
  waiting p =
      let u = f.unparsed_buffer in
      let f' = (concluded f (p, length u, none)).0 in
      let empty : f'.unparsed_buffer ++ ys ≡ ys = rw (drop-all (length u) u (omega arith)) in
      unfold current_parser enqueue_bytes in
      (progress_lem (enqueue_bytes f' ys) (absorb-FitsLimit f (take (length u) u) [])
        ∙ ap (λ b. concluded (enqueue_bytes f' ys) (parse_with p b)) empty)

  resumed_of :
      {f' : Fragmentizer} (r : Parser × ℕ × Option FragmentInfo)
      → (r.2 ≡ none → r.1 ≡ length f.unparsed_buffer)
      → concluded f r ≡ (f', none)
      → progress (enqueue_bytes f' ys) ≡ concluded (enqueue_bytes f ys) (continue ys r)
  resumed_of (p, count, some x) all e = cc
  resumed_of {f'} (p, count, none) all e =
      let (p', more, found) = parse_with p ys in
      let same : (concluded f (p, length f.unparsed_buffer, none)).0 ≡ f' =
        rw (all refl) at (ap (λ (c : Fragmentizer × Option FragmentInfo). c.0) e) in
      rw (← same, all refl) (waiting p ∙ concluded_resumed f ys p p' more found)

module _ (f : Fragmentizer) (ys : Bytes)
    (fits : FitsLimit f.max_message_size f.message_buffer) where
  -- If the buffer keeps to the limit, a fragment that `progress` finds and the state that it
  -- leaves do not depend on the bytes that arrive later.
  pub progress_found :
      {f' : Fragmentizer} {found : FragmentInfo}
      → progress f ≡ (f', some found)
      → progress (enqueue_bytes f ys) ≡ (enqueue_bytes f' ys, some found)
  progress_found h =
      let (f₁, p) = current_parser f in
      progress-enqueue f ys fits
      ∙ found_of f₁ ys (parse_with p f₁.unparsed_buffer) (parse_with-count_le p f₁.unparsed_buffer)
          (sym (progress_lem f fits) ∙ h)

  -- If the buffer keeps to the limit and `progress` waits for more bytes, then it goes on with new
  -- bytes as if they had been there before.
  pub progress_resumed :
      {f' : Fragmentizer}
      → progress f ≡ (f', none)
      → progress (enqueue_bytes f' ys) ≡ progress (enqueue_bytes f ys)
  progress_resumed h =
      let (f₁, p) = current_parser f in
      resumed_of f₁ ys (parse_with p f₁.unparsed_buffer) (parse_with-none p f₁.unparsed_buffer)
        (sym (progress_lem f fits) ∙ h)
      ∙ sym (progress-enqueue f ys fits)
