-- ===== src/Fragmentizer/State/Run.antt =====
-- The loop around `Fragmentizer::progress` that the module documentation of
-- imap-codec/src/fragmentizer.rs shows: fragments are taken until more bytes are needed.
use mathlib.Core.Option
use native.Mathlib.Nat.{add_comm, suc-add}
use imap_codec.Prelude.{
  ℕ, zero, suc, ◌+◌, ◌-◌, ◌*◌, ◌≤◌, ◌<◌, ◌≡◌, ◌⊎◌, ◌∙◌, refl, sym, ap, Option, none, some, List, [],
  ◌∷◌, ◌++◌, Bytes, length, take, drop, arith, Option-cases, inl, inr, length-drop, subst,
}
use imap_codec.Fragmentizer.Fragment.{FragmentInfo, line, literal}
use imap_codec.Fragmentizer.State.{
  Fragmentizer, Parser, line_parser, literal_parser, current_parser, parse_with, parser_after,
  progress, enqueue_bytes,
}
use imap_codec.Fragmentizer.State.Limit.{FitsLimit, absorb-FitsLimit}
use imap_codec.Fragmentizer.State.Progress.{
  concluded, FragmentCost, parse_with-count_le, parse_with-FragmentCost, current_parser-unparsed,
  progress_lem,
}
use imap_codec.Fragmentizer.State.Stream.{progress_found, progress_resumed}

abbrev pub prepend :
    FragmentInfo → Fragmentizer × List FragmentInfo → Fragmentizer × List FragmentInfo
prepend found (f, fragments) = (f, found ∷ fragments)

-- `none` means that the fuel ran out.
unfoldable pub run : ℕ → Fragmentizer → Option (Fragmentizer × List FragmentInfo)
run zero f = none
run (suc fuel) f =
    let (f', fragment) = progress f in
    elim fragment [ none ↦ some (f', []) | some found ↦ Option.map (prepend found) (run fuel f') ]

abbrev pub Fits : Fragmentizer → Type 0
Fits f = FitsLimit f.max_message_size f.message_buffer

-- A round of a literal may read nothing, if the literal is empty; then a line follows.
abbrev pub pending : Option Parser → ℕ
pending none = 0
pending (some (line_parser _)) = 0
pending (some (literal_parser _)) = 1

abbrev pub measure : Fragmentizer → ℕ
measure f = 2 * length f.unparsed_buffer + pending f.parser

pending-parser_after : (found : FragmentInfo) → pending (parser_after found) ≤ 1
unfolding parser_after
pending-parser_after (line start end none ending) = omega arith
pending-parser_after (line start end (some a) ending) = omega arith
pending-parser_after (literal start end) = omega arith

after-literal : (start end : ℕ) → pending (parser_after (literal start end)) ≡ 0
unfolding parser_after
after-literal start end = refl

smaller :
    (p : Parser) (len count : ℕ) (found : FragmentInfo)
    → count ≤ len
    → FragmentCost p count found
    → 2 * (len - count) + pending (parser_after found) < 2 * len + pending (some p)
smaller (line_parser p) len count found h cost = omega (arith, pending-parser_after found)
smaller (literal_parser p) len count found h cost =
    rw cost (omega (arith, after-literal p.start (p.end + p.remaining)))

pending-current_parser : (f : Fragmentizer) → pending (some (current_parser f).1) ≡ pending f.parser
unfolding current_parser
pending-current_parser f = ground arith

concluded_smaller :
    (f f' : Fragmentizer) (p : Parser) (r : Parser × ℕ × Option FragmentInfo) (found : FragmentInfo)
    → r.1 ≤ length f.unparsed_buffer
    → (r.2 ≡ some found → FragmentCost p r.1 found)
    → concluded f r ≡ (f', some found)
    → Fits f' × (measure f' < 2 * length f.unparsed_buffer + pending (some p))
concluded_smaller f f' p (p', count, none) found h cost e = cc
concluded_smaller f f' p (p', count, some x) found h cost e =
    let u = f.unparsed_buffer in
    let same = ap (λ (c : Fragmentizer × Option FragmentInfo). c.0) e in
    let tag : some x ≡ some found = ap (λ (c : Fragmentizer × Option FragmentInfo). c.1) e in
    let found_x : x ≡ found = cc in
    let fits = absorb-FitsLimit f (take count u) (drop count u) in
    let less = smaller p (length u) count x h (rw found_x (cost (rw found_x))) in
    subst (λ g. Fits g × (measure g < 2 * length u + pending (some p))) same
      (fits, rw (length-drop count u) less)

-- A round that finds a fragment leaves a valid fragmentizer with less to do.
pub progress_smaller :
    (f : Fragmentizer) {f' : Fragmentizer} {found : FragmentInfo}
    → Fits f
    → progress f ≡ (f', some found)
    → Fits f' × (measure f' < measure f)
progress_smaller f {f'} {found} fits e =
    let (f₁, p) = current_parser f in
    let u = f₁.unparsed_buffer in
    let (fits', less) =
      concluded_smaller f₁ f' p (parse_with p u) found (parse_with-count_le p u)
        (parse_with-FragmentCost p u) (sym (progress_lem f fits) ∙ e) in
    (fits', rw (current_parser-unparsed f, pending-current_parser f) at less)

-- The result of a round, by its fragment.
run-none :
    (fuel : ℕ) (f : Fragmentizer)
    → (progress f).1 ≡ none
    → run (suc fuel) f ≡ some ((progress f).0, [])
unfolding run
run-none fuel f e = rw (e, run)

run-some :
    (fuel : ℕ) (f : Fragmentizer) {found : FragmentInfo}
    → (progress f).1 ≡ some found
    → run (suc fuel) f ≡ Option.map (prepend found) (run fuel (progress f).0)
unfolding run
run-some fuel f e = rw (e, run)

-- The loop ends: if the buffer keeps to the limit, then with fuel above the measure, which is at
-- most one more than twice the number of waiting bytes, it stops because more bytes are needed.
pub run_total :
    (fuel : ℕ) (f : Fragmentizer)
    → Fits f
    → measure f < fuel
    → (f' : Fragmentizer) × (fragments : List FragmentInfo) × (run fuel f ≡ some (f', fragments))
run_total zero f fits h = absurd (omega arith)
run_total (suc fuel) f fits h = elim (Option-cases (progress f).1) [
  | inl e ↦ ((progress f).0, [], run-none fuel f e)
  | inr (found, e) ↦
      let (fits', less) = progress_smaller f fits (λ i. ((progress f).0, e i)) in
      let (f', more, done) = run_total fuel (progress f).0 fits' (omega arith) in
      (f', found ∷ more, run-some fuel f e ∙ rw done)
]

-- A successful run stopped at once, or found a fragment and went on.
run_cases :
    (fuel : ℕ) (f : Fragmentizer) {f' : Fragmentizer} {xs : List FragmentInfo}
    → run (suc fuel) f ≡ some (f', xs)
    → (((progress f).1 ≡ none) × ((progress f).0 ≡ f') × (xs ≡ []))
      ⊎ ((found : FragmentInfo) × (more : List FragmentInfo) × ((progress f).1 ≡ some found)
          × (run fuel (progress f).0 ≡ some (f', more))
          × (xs ≡ found ∷ more))
run_cases fuel f {f'} {xs} h = elim (Option-cases (progress f).1) [
  | inl e ↦ let both = sym (run-none fuel f e) ∙ h in inl (e, cc, cc)
  | inr (found, e) ↦
      let (r, done, both) =
        (Option.map-eq-some_iff (prepend found) (run fuel (progress f).0)).0
          (sym (run-some fuel f e) ∙ h) in
      inr (
        found,
        r.1,
        e,
        done ∙ ap (λ (q : Fragmentizer × List FragmentInfo). some (q.0, r.1)) both,
        sym (ap (λ (r : Fragmentizer × List FragmentInfo). r.1) both),
      )
]

run_mono :
    (fuel extra : ℕ) (f : Fragmentizer) {f' : Fragmentizer} {xs : List FragmentInfo}
    → run fuel f ≡ some (f', xs)
    → run (fuel + extra) f ≡ some (f', xs)
run_mono zero extra f h = unfold run in cc
run_mono (suc fuel) extra f h = elim (run_cases fuel f h) [
  | inl (e, same, empty) ↦ rw (suc-add) (run-none (fuel + extra) f e ∙ rw (same, empty))
  | inr (found, more, e, rest, both) ↦
      rw (suc-add)
        (run-some (fuel + extra) f e ∙ rw (run_mono fuel extra (progress f).0 rest, both))
]

run-progress :
    (fuel : ℕ) (f g : Fragmentizer) → progress f ≡ progress g → run (suc fuel) f ≡ run (suc fuel) g
run-progress fuel f g e =
    let state = ap (λ (c : Fragmentizer × Option FragmentInfo). c.0) e in
    let fragment = ap (λ (c : Fragmentizer × Option FragmentInfo). c.1) e in
    elim (Option-cases (progress f).1) [
      | inl n ↦ run-none fuel f n ∙ rw state (sym (run-none fuel g (sym fragment ∙ n)))
      | inr (found, s) ↦ run-some fuel f s ∙ rw state (sym (run-some fuel g (sym fragment ∙ s)))
    ]

-- If the buffer keeps to the limit, and taking fragments until bytes are missing, enqueueing more
-- bytes and taking fragments again both have enough fuel, then with all the fuel the same
-- fragments are found, and the same state is left, if all bytes are enqueued at first: how the
-- stream was cut is not seen.
pub run-enqueue :
    (fuel more : ℕ) (f : Fragmentizer) (ys : Bytes) {f' f'' : Fragmentizer}
    {xs zs : List FragmentInfo}
    → Fits f
    → run fuel f ≡ some (f', xs)
    → run more (enqueue_bytes f' ys) ≡ some (f'', zs)
    → run (fuel + more) (enqueue_bytes f ys) ≡ some (f'', xs ++ zs)
run-enqueue zero more f ys fits e e' = unfold run in cc
run-enqueue (suc fuel) zero f ys fits e e' = unfold run in cc
run-enqueue (suc fuel) (suc more) f ys {f'} {f''} {xs} {zs} fits e e' = elim (run_cases fuel f e) [
  | inl (nothing, same, empty) ↦
      let here : progress f ≡ (f', none) = λ i. (same i, nothing i) in
      let again =
        run-progress more (enqueue_bytes f' ys) (enqueue_bytes f ys)
          (progress_resumed f ys fits here) in
      rw (empty, add_comm) (run_mono (suc more) (suc fuel) (enqueue_bytes f ys) (sym again ∙ e'))
  | inr (found, rest, something, later, both) ↦
      let here : progress f ≡ ((progress f).0, some found) = λ i. ((progress f).0, something i) in
      let (fits', _) = progress_smaller f fits here in
      let first = progress_found f ys fits here in
      let tail = run-enqueue fuel (suc more) (progress f).0 ys fits' later e' in
      rw (suc-add) (
        run-some (fuel + suc more) (enqueue_bytes f ys)
          (ap (λ (r : Fragmentizer × Option FragmentInfo). r.1) first)
        ∙ rw (first, tail, both))
]
