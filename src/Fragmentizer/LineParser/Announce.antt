-- ===== src/Fragmentizer/LineParser/Announce.antt =====
-- Which lines announce a literal, by the grammar and not by the states of the line parser of
-- imap-codec/src/fragmentizer.rs.
use mathlib.Core.List.{cons-ne-nil, concat-ne-nil}
use imap_codec.Prelude.{
  ℕ, ◌+◌, ◌-◌, ◌*◌, ◌≤◌, ◌≡◌, ◌∙◌, refl, ap, ◌↔◌, inl, inr, none, some, [], ◌∷◌, ◌++◌, append_assoc,
  append-nil, Bytes, All, All-append, arith, ◌==◌, true, leb, Bool-cases, ==_iff, leb→le, subst,
}
use imap_codec.Core.Literal.{LiteralMode, sync, non_sync}
use imap_codec.Fragmentizer.Fragment.{LiteralAnnouncement}
use imap_codec.Fragmentizer.LineParser.{
  LatestByte, other, opening_bracket, digit, plus, closing_bracket, cr, u32_max, is_digit,
  next_state, push_digit, line_facts, plain,
}
use imap_codec.Fragmentizer.LineParser.Scan.{scan, scan-append}
use imap_codec.Fragmentizer.LineParser.Grammar.{
  IsDigit, value, announcement_bytes, Spells, Announces, LineAnnounces, value-append, le-value,
}

-- What the state says of the bytes read so far.
abbrev Means : LatestByte → Bytes → Type 0
Means other w = Unit
Means opening_bracket w = (pre : Bytes) × (w ≡ pre ++ b'{' ∷ [])
Means (digit n) w = (pre ds : Bytes) × Spells ds n × (w ≡ pre ++ b'{' ∷ ds)
Means (plus n) w = (pre ds : Bytes) × Spells ds n × (w ≡ pre ++ b'{' ∷ (ds ++ b'+' ∷ []))
Means (closing_bracket a) w = Announces w a
Means (cr none) w = Unit
Means (cr (some a)) w = (v : Bytes) × (w ≡ v ++ b'\r' ∷ []) × Announces v a

Means-plain : (w : Bytes) (b : ℕ) → Means (plain b) (w ++ b ∷ [])
unfolding plain
Means-plain w b = elim (Bool-cases (b == b'\r')) [
  | inl e ↦ rw e tt
  | inr e ↦ rw e (elim (Bool-cases (b == b'{')) [
    | inl o ↦ rw o (w, rw ((==_iff b b'{').0 o))
    | inr o ↦ rw o tt
  ])
]

Spells-push :
    (ds : Bytes) (n b : ℕ)
    → Spells ds n
    → IsDigit b
    → n * 10 + (b - b'0') ≤ u32_max
    → Spells (ds ++ b ∷ []) (n * 10 + (b - b'0'))
Spells-push ds n b s h fits = record {
  nonempty = concat-ne-nil b ds;
  digits = All-append IsDigit ds (b ∷ []) s.digits (h, tt);
  exact = rw (value-append, s.exact);
  fits = fits;
}

Means-push_digit :
    (w : Bytes) (n b : ℕ)
    → Means (digit n) w
    → IsDigit b
    → Means (push_digit n (b - b'0')) (w ++ b ∷ [])
unfolding push_digit
Means-push_digit w n b (pre, ds, s, e) h = elim (Bool-cases (leb (n * 10) u32_max)) [
  | inr big ↦ rw (big, push_digit) tt
  | inl small ↦ elim (Bool-cases (leb (n * 10 + (b - b'0')) u32_max)) [
    | inr big ↦ rw (small, big, push_digit) tt
    | inl fits ↦
        rw (small, fits, push_digit)
          (pre, ds ++ b ∷ [], Spells-push ds n b s h (leb→le _ _ fits), rw (e, append_assoc))
  ]
]

first_digit : (b : ℕ) → IsDigit b → Spells (b ∷ []) (b - b'0')
first_digit b h = record {
  nonempty = cons-ne-nil b [];
  digits = (h, tt);
  exact = omega arith;
  fits = omega arith;
}

is_digit→IsDigit : (b : ℕ) → is_digit b ≡ true → IsDigit b
is_digit→IsDigit b h = ground arith

-- One byte more keeps the meaning.
Means-next_state :
    (s : LatestByte) (w : Bytes) (b : ℕ) → Means s w → Means (next_state s b) (w ++ b ∷ [])
unfolding next_state
Means-next_state other w b m = Means-plain w b
Means-next_state opening_bracket w b (pre, e) = elim (Bool-cases (is_digit b)) [
  | inl d ↦ rw d (pre, b ∷ [], first_digit b (is_digit→IsDigit b d), rw (e, append_assoc))
  | inr d ↦ rw d (Means-plain w b)
]
Means-next_state (digit n) w b m = elim (Bool-cases (is_digit b)) [
  | inl d ↦ rw d (Means-push_digit w n b m (is_digit→IsDigit b d))
  | inr d ↦ rw d (elim (Bool-cases (b == b'+')) [
    | inl p ↦ rw p (m.0, m.1, m.2, rw (m.3, (==_iff b b'+').0 p, append_assoc))
    | inr p ↦ rw p (elim (Bool-cases (b == b'}')) [
      | inl c ↦ rw c (record {
        before = m.0;
        ds = m.1;
        number = m.2;
        spelled = rw (m.3, (==_iff b b'}').0 c, append_assoc);
      })
      | inr c ↦ rw c (Means-plain w b)
    ])
  ])
]
Means-next_state (plus n) w b m = elim (Bool-cases (b == b'}')) [
  | inl c ↦ rw c (record {
    before = m.0;
    ds = m.1;
    number = m.2;
    spelled = simp (m.3, (==_iff b b'}').0 c, append_assoc);
  })
  | inr c ↦ rw c (Means-plain w b)
]
Means-next_state (closing_bracket a) w b m = elim (Bool-cases (b == b'\r')) [
  | inl c ↦ rw c (w, rw ((==_iff b b'\r').0 c), m)
  | inr c ↦ rw c (rw c at (Means-plain w b))
]
Means-next_state (cr _) w b m = Means-plain w b

Means-scan : (s : LatestByte) (w bytes : Bytes) → Means s w → Means (scan s bytes) (w ++ bytes)
unfolding scan
Means-scan s w [] m = rw append-nil m
Means-scan s w (b ∷ bytes) m =
    rw (← append_assoc w (b ∷ []) bytes)
      (Means-scan (next_state s b) (w ++ b ∷ []) bytes (Means-next_state s w b m))

-- A state that announces a literal stands behind bytes that do.
Means→LineAnnounces :
    (s : LatestByte) (w : Bytes) {a : LiteralAnnouncement}
    → Means s w
    → (line_facts s).0 ≡ some a
    → LineAnnounces w a
unfolding line_facts
Means→LineAnnounces (closing_bracket a) w m h = inl (subst (Announces w) (cc) m)
Means→LineAnnounces (cr (some a)) w (v, e, m) h = inr (v, e, subst (Announces v) (cc) m)
Means→LineAnnounces (cr none) w m h = cc
Means→LineAnnounces other w m h = cc
Means→LineAnnounces opening_bracket w m h = cc
Means→LineAnnounces (digit n) w m h = cc
Means→LineAnnounces (plus n) w m h = cc

next_state-open : (s : LatestByte) → next_state s b'{' ≡ opening_bracket
unfolding next_state
next_state-open other = refl
next_state-open _ = refl

push_digit_fits : (n d : ℕ) → n * 10 + d ≤ u32_max → push_digit n d ≡ digit (n * 10 + d)
unfolding push_digit
push_digit_fits n d h = ground arith

scan-digits :
    (n : ℕ) (ds : Bytes)
    → All IsDigit ds
    → value n ds ≤ u32_max
    → scan (digit n) ds ≡ digit (value n ds)
unfolding scan
scan-digits n [] h fits = refl
scan-digits n (c ∷ ds) (hc, hs) fits =
    let m = n * 10 + (c - b'0') in
    let small = push_digit_fits n (c - b'0') (omega (arith, le-value m ds)) in
    let read : next_state (digit n) c ≡ digit m = unfold next_state in ground (arith, small) in
    rw read (scan-digits m ds hs fits)

scan_number : (ds : Bytes) (n : ℕ) → Spells ds n → scan opening_bracket ds ≡ digit n
unfolding scan
scan_number [] n s = absurd (s.nonempty refl)
scan_number (c ∷ ds) n s =
    let first : next_state opening_bracket c ≡ digit (c - b'0') =
      unfold next_state in ground (arith, s.digits.0) in
    let start : 0 * 10 + (c - b'0') ≡ c - b'0' = omega arith in
    let total : value (c - b'0') ds ≡ n = rw start at s.exact in
    rw first (scan-digits (c - b'0') ds s.digits.1 (rw total s.fits) ∙ ap digit total)

scan_open : (s : LatestByte) (w : Bytes) → scan s (b'{' ∷ w) ≡ scan opening_bracket w
unfolding scan
scan_open s w = ap (λ t. scan t w) (next_state-open s)

scan-announcement :
    (s : LatestByte) (mode : LiteralMode) (ds : Bytes) (n : ℕ)
    → Spells ds n
    → scan s (announcement_bytes mode ds) ≡ closing_bracket (record { mode = mode; length = n })
scan-announcement s sync ds n h =
    scan_open s (ds ++ b'}' ∷ [])
    ∙ rw (scan-append, scan_number ds n h) (unfold scan next_state in refl)
scan-announcement s non_sync ds n h =
    scan_open s (ds ++ b'+' ∷ b'}' ∷ [])
    ∙ rw (scan-append, scan_number ds n h) (unfold scan next_state in refl)

scan-Announces :
    (s : LatestByte) (w : Bytes) (a : LiteralAnnouncement)
    → Announces w a
    → scan s w ≡ closing_bracket a
scan-Announces s w a h =
    rw (h.spelled, scan-append) (scan-announcement (scan s h.before) a.mode h.ds a.length h.number)

-- The parser takes a line for the announcement of a literal exactly when the line ends in `{`, a
-- number of 32 bits, an optional `+` and `}`, with an optional `\r` behind; mode and length are
-- those that are written there.
pub announces_iff :
    (w : Bytes) (a : LiteralAnnouncement)
    → ((line_facts (scan other w)).0 ≡ some a) ↔ LineAnnounces w a
announces_iff w a = (Means→LineAnnounces (scan other w) w (Means-scan other [] w tt), complete)
  where
    complete : LineAnnounces w a → (line_facts (scan other w)).0 ≡ some a
    complete (inl h) = rw (scan-Announces other w a h) (unfold line_facts in refl)
    complete (inr (v, e, h)) =
        rw (e, scan-append, scan-Announces other v a h) (unfold scan next_state line_facts in refl)
