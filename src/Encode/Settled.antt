-- ===== src/Encode/Settled.antt =====
-- Texts of a command (imap-codec/src/codec/encode.rs) that do not look like the announcement of a
-- literal to the line parser of imap-codec/src/fragmentizer.rs.
use imap_codec.Prelude.{
  ℕ, ◌≡◌, ◌≢◌, ◌∙◌, refl, true, none, [], ◌∷◌, ◌++◌, Bytes, codes, All, All-append, arith,
}
use imap_codec.Prelude.{Bool, not, ◌||◌, all, Bool-cases, inl, inr, ◌==◌}
use imap_codec.Escape.{backslash, quote}
use imap_codec.Indicators.{
  is_astring_char, is_list_char, is_text_char, is_atom_char, is_atom_specials, is_char, is_ctl,
  is_list_wildcards, is_quoted_specials, is_resp_specials,
}
use imap_codec.Escape.{escape_quoted}
use imap_codec.Escape.Quoted.{escaped, escaped_byte, escape_quoted-escaped}
use imap_codec.Fragmentizer.Fragment.{LiteralAnnouncement}
use imap_codec.Fragmentizer.LineParser.{
  LatestByte, other, opening_bracket, digit, plus, closing_bracket, cr, line_facts, next_state,
  plain,
}
use imap_codec.Fragmentizer.LineParser.Scan.{NoLf, scan, scan-append}
use imap_codec.Fragmentizer.LineParser.Grammar.{LineAnnounces}
use imap_codec.Fragmentizer.LineParser.Announce.{announces_iff}

-- A text that leaves the line parser as it was at the start of the line, and has no line end.
pub record Settled (text : Bytes) : Type 0 where
  pub one_line : NoLf text
  pub state : scan other text ≡ other

pub Settled-append : (xs ys : Bytes) → Settled xs → Settled ys → Settled (xs ++ ys)
Settled-append xs ys h k = record {
  one_line = All-append (λ b. b ≢ b'\n') xs ys h.one_line k.one_line;
  state = rw (scan-append, h.state) k.state;
}

pub Settled-nil : Settled []
unfolding scan
Settled-nil = record { one_line = tt; state = refl }

-- A byte that no state of the parser keeps in mind.
abbrev pub is_plain : ℕ → Bool
is_plain b = not (b == b'\n' || b == b'\r' || b == b'{')

plain_byte : (b : ℕ) → is_plain b ≡ true → (b ≢ b'\n') × (next_state other b ≡ other)
unfolding next_state plain
plain_byte b h = ((λ e. ground arith), ground arith)

pub Settled-plain : (text : Bytes) → all is_plain text ≡ true → Settled text
unfolding scan
Settled-plain [] h = record { one_line = tt; state = refl }
Settled-plain (b ∷ text) h =
    let rest = Settled-plain text (ground arith) in
    let (no_lf, stays) = plain_byte b (ground arith) in
    record { one_line = (no_lf, rest.one_line); state = rw stays rest.state }

-- Such a line announces nothing.
pub Settled-not_LineAnnounces :
    (w : Bytes) → Settled w → (a : LiteralAnnouncement) → ¬ (LineAnnounces (w ++ codes "\r") a)
Settled-not_LineAnnounces w h a announces =
    let facts : (line_facts (scan other (w ++ codes "\r"))).0 ≡ none =
      rw (scan-append, h.state) (unfold scan next_state plain line_facts in refl) in
    let some_facts = (announces_iff (w ++ codes "\r") a).1 announces in cc

astring_byte : (b : ℕ) → is_astring_char b ≡ true → (b ≢ b'\n') × (next_state other b ≡ other)
unfolding is_astring_char is_atom_char is_atom_specials is_char is_ctl is_list_wildcards
    is_quoted_specials is_resp_specials next_state plain
astring_byte b h = ((λ e. ground arith), ground arith)

-- A text of a class whose bytes leave the state as it is.
Settled-each :
    (p : ℕ → Bool)
    → ((b : ℕ) → p b ≡ true → (b ≢ b'\n') × (next_state other b ≡ other))
    → (value : Bytes) → All (λ b. p b ≡ true) value
    → Settled value
unfolding scan
Settled-each p stays [] h = record { one_line = tt; state = refl }
Settled-each p stays (b ∷ value) (hb, h) =
    let rest = Settled-each p stays value h in
    let (no_lf, same) = stays b hb in
    record { one_line = (no_lf, rest.one_line); state = rw same rest.state }

pub Settled-astring : (value : Bytes) → All (λ b. is_astring_char b ≡ true) value → Settled value
Settled-astring = Settled-each is_astring_char astring_byte

list_byte : (b : ℕ) → is_list_char b ≡ true → (b ≢ b'\n') × (next_state other b ≡ other)
unfolding is_list_char is_atom_char is_atom_specials is_char is_ctl is_list_wildcards
    is_quoted_specials is_resp_specials next_state plain
list_byte b h = ((λ e. ground arith), ground arith)

pub Settled-list : (value : Bytes) → All (λ b. is_list_char b ≡ true) value → Settled value
Settled-list = Settled-each is_list_char list_byte

next_state-quote : (s : LatestByte) → next_state s b'"' ≡ other
unfolding next_state plain
next_state-quote other = refl
next_state-quote opening_bracket = refl
next_state-quote (digit n) = refl
next_state-quote (plus n) = refl
next_state-quote (closing_bracket a) = refl
next_state-quote (cr a) = refl

NoLf-escaped_byte : (b : ℕ) → is_text_char b ≡ true → NoLf (escaped_byte b)
unfolding is_text_char
NoLf-escaped_byte b h = elim (Bool-cases (b == backslash)) [
  | inl e ↦ rw e (omega arith)
  | inr e ↦ rw e (elim (Bool-cases (b == quote)) [
    | inl e' ↦ rw e' (omega arith)
    | inr e' ↦ rw e' ((λ same. ground arith), tt)
  ])
]

NoLf-escaped : (value : Bytes) → All (λ b. is_text_char b ≡ true) value → NoLf (escaped value)
NoLf-escaped [] h = tt
NoLf-escaped (b ∷ value) (hb, h) =
    All-append (λ c. c ≢ b'\n') (escaped_byte b) (escaped value) (NoLf-escaped_byte b hb)
      (NoLf-escaped value h)

-- A quoted string of text characters.
pub Settled-quoted :
    (value : Bytes)
    → All (λ b. is_text_char b ≡ true) value
    → Settled (codes "\"" ++ (escape_quoted value ++ codes "\""))
unfolding scan
Settled-quoted value h =
    let body = codes "\"" ++ escaped value in
    let clean : NoLf (body ++ codes "\"") =
      All-append (λ c. c ≢ b'\n') body (codes "\"") ((omega arith), NoLf-escaped value h)
        (omega arith) in
    let closed : scan other (body ++ codes "\"") ≡ other =
      scan-append other body (codes "\"") ∙ next_state-quote (scan other body) in
    rw (escape_quoted-escaped value) (record { one_line = clean; state = closed })
