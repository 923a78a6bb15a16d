-- ===== src/Fragmentizer/LineParser/Line.antt =====
-- The result of the line parser of imap-codec/src/fragmentizer.rs on a line, described by the
-- bytes of the line.
use mathlib.Core.List.{concat-ne-nil}
use imap_codec.Prelude.{
  ℕ, ◌+◌, ◌≡◌, ◌∙◌, refl, sym, ap, ◌↔◌, inl, inr, Option, some, [], ◌∷◌, ◌++◌, Bytes, length, arith,
  snoc_cases, snoc_injective,
}
use imap_codec.Fragmentizer.Fragment.{LiteralAnnouncement, LineEnding, cr_lf, line}
use imap_codec.Fragmentizer.LineParser.{
  LatestByte, other, opening_bracket, digit, plus, closing_bracket, cr, new, next_state, line_facts,
  parse,
}
use imap_codec.Fragmentizer.LineParser.Scan.{NoLf, scan, scan-append, parse_line}
use imap_codec.Fragmentizer.LineParser.Grammar.{LineAnnounces}
use imap_codec.Fragmentizer.LineParser.Announce.{announces_iff}

abbrev pub EndsInCr : Bytes → Type 0
EndsInCr w = (v : Bytes) × (w ≡ v ++ b'\r' ∷ [])

ending-next_state :
    (s : LatestByte) (b : ℕ) → ((line_facts (next_state s b)).1 ≡ cr_lf) ↔ (b ≡ b'\r')
unfolding line_facts next_state
ending-next_state other b = ground arith
ending-next_state opening_bracket b = ground arith
ending-next_state (digit n) b = ground arith
ending-next_state (plus n) b = ground arith
ending-next_state (closing_bracket a) b = ground arith
ending-next_state (cr a) b = ground arith

pub ending_iff : (w : Bytes) → ((line_facts (scan other w)).1 ≡ cr_lf) ↔ EndsInCr w
ending_iff w = elim (snoc_cases w) [
  | inl e ↦ (
    rw e (unfold scan line_facts in λ h. cc),
    λ (v, e'). absurd (concat-ne-nil b'\r' v (sym e' ∙ e)),
  )
  | inr (v, b, e) ↦
      let last_step : scan other w ≡ next_state (scan other v) b =
        rw (e, scan-append) (unfold scan in refl) in
      let same = ending-next_state (scan other v) b in
      (
        λ h. (v, rw (e, same.0 (rw last_step at h))),
        λ (v', e'). rw last_step (same.1 (snoc_injective v v' b b'\r' (sym e ∙ e'))),
      )
]

-- From a new parser, bytes without `\n` and a `\n` are one line, and nothing behind the `\n` is
-- parsed. The line's range counts the bytes from `start`, it announces a literal exactly when its
-- bytes do, and its ending is `\r\n` exactly when a `\r` stands before the `\n`.
pub parse-new_line :
    (start : ℕ) (w rest : Bytes)
    → NoLf w
    → (announcement : Option LiteralAnnouncement) × (ending : LineEnding) × ((parse
          (new start)
          (w ++ b'\n' ∷ rest)).1
        ≡ length w + 1)
      × ((parse (new start) (w ++ b'\n' ∷ rest)).2
          ≡ some (line start (start + length w + 1) announcement ending))
      × ((a : LiteralAnnouncement) → (announcement ≡ some a) ↔ LineAnnounces w a)
      × ((ending ≡ cr_lf) ↔ EndsInCr w)
unfolding new
parse-new_line start w rest h =
    let facts = line_facts (scan other w) in
    let whole = parse_line (new start) w rest h in
    (facts.0, facts.1, ap (λ r. r.1) whole, ap (λ r. r.2) whole, announces_iff w, ending_iff w)
