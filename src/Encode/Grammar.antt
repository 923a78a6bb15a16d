-- ===== src/Encode/Grammar.antt =====
-- The grammar of the strings that imap-codec/src/codec/encode.rs writes.
use imap_codec.Prelude.{
  ℕ, ◌≡◌, ◌≢◌, refl, sym, ◌∙◌, true, false, [], ◌∷◌, ◌++◌, append_assoc, Bytes, codes, length, All,
  arith,
}
use mathlib.Core.List.{append_cancel_right}
use imap_codec.Indicators.{
  is_astring_char, is_atom_char, is_atom_specials, is_char, is_ctl, is_list_wildcards,
  is_resp_specials, is_char8, is_quoted_specials, is_any_text_char_except_quoted_specials,
}
use imap_codec.Escape.{backslash}
use imap_codec.Fragmentizer.LineParser.Grammar.{IsDigit, Spells}

-- The inside of a quoted string, and the bytes that it stands for: a quote and a backslash stand
-- behind a backslash, every other text character stands for itself.
pub data QuotedText : Bytes → Bytes → Type 0 where
  done : QuotedText [] []
  plain :
      {b : ℕ} {text value : Bytes}
      → is_any_text_char_except_quoted_specials b ≡ true
      → QuotedText text value
      → QuotedText (b ∷ text) (b ∷ value)
  special :
      {b : ℕ} {text value : Bytes}
      → is_quoted_specials b ≡ true
      → QuotedText text value
      → QuotedText (backslash ∷ b ∷ text) (b ∷ value)

-- A string of the grammar, and the bytes that it stands for.
pub data Denotes : Bytes → Bytes → Type 0 where
  bare :
      {value : Bytes} → value ≢ [] → All (λ b. is_astring_char b ≡ true) value → Denotes value value
  in_quotes :
      {text value : Bytes}
      → QuotedText text value
      → Denotes (codes "\"" ++ (text ++ codes "\"")) value
  counted :
      {digits value : Bytes}
      → Spells digits (length value)
      → All (λ b. is_char8 b ≡ true) value
      → Denotes ((codes "{" ++ (digits ++ codes "}\r\n")) ++ value) value

quoted_unique :
    {text text' value value' : Bytes}
    → QuotedText text value
    → QuotedText text' value'
    → text ≡ text'
    → value ≡ value'
unfolding is_any_text_char_except_quoted_specials is_quoted_specials
quoted_unique done done e = refl
quoted_unique done (plain h q) e = cc
quoted_unique done (special h q) e = cc
quoted_unique (plain h q) done e = cc
quoted_unique (special h q) done e = cc
quoted_unique (plain h q) (plain h' q') e = let same = quoted_unique q q' cc in cc
quoted_unique (special h q) (special h' q') e = let same = quoted_unique q q' cc in cc
quoted_unique (plain {b = b} h q) (special h' q') e =
    let same : b ≡ backslash = cc in absurd (ground arith)
quoted_unique (special h q) (plain {b = b} h' q') e =
    let same : b ≡ backslash = cc in absurd (ground arith)

-- Digits end where the next byte is none.
digits_end :
    (ds ds' rest rest' : Bytes)
    → All IsDigit ds
    → All IsDigit ds'
    → ds ++ b'}' ∷ rest ≡ ds' ++ b'}' ∷ rest'
    → rest ≡ rest'
digits_end [] [] rest rest' h h' e = cc
digits_end [] (d ∷ ds') rest rest' h (d', h') e = let same : d ≡ b'}' = cc in absurd (omega arith)
digits_end (d ∷ ds) [] rest rest' (d', h) h' e = let same : d ≡ b'}' = cc in absurd (omega arith)
digits_end (d ∷ ds) (c ∷ ds') rest rest' (d', h) (c', h') e = digits_end ds ds' rest rest' h h' cc

-- An atom begins neither with a quote nor with a brace.
bare_head :
    (c : ℕ) (value rest : Bytes)
    → is_astring_char c ≡ false
    → All (λ b. is_astring_char b ≡ true) value
    → value ≢ []
    → value ≢ c ∷ rest
bare_head c [] rest h chars n e = n refl
bare_head c (b ∷ value) rest h (char, chars) n e =
    let same : b ≡ c = cc in absurd (ground (arith, same))

same_denoted :
    {written written' value value' : Bytes}
    → Denotes written value
    → Denotes written' value'
    → written ≡ written'
    → value ≡ value'
unfolding is_astring_char is_atom_char is_atom_specials is_char is_ctl is_list_wildcards
    is_quoted_specials is_resp_specials
same_denoted (bare n h) (bare n' h') e = e
same_denoted (bare n h) (in_quotes q) e = absurd (bare_head b'"' _ _ refl h n e)
same_denoted (bare n h) (counted s c) e = absurd (bare_head b'{' _ _ refl h n e)
same_denoted (in_quotes q) (bare n h) e = absurd (bare_head b'"' _ _ refl h n (sym e))
same_denoted (in_quotes q) (in_quotes q') e =
    quoted_unique q q' (append_cancel_right _ _ (codes "\"") cc)
same_denoted (in_quotes q) (counted s c) e = cc
same_denoted (counted s c) (bare n h) e = absurd (bare_head b'{' _ _ refl h n (sym e))
same_denoted (counted s c) (in_quotes q) e = cc
same_denoted (counted {digits = ds} {value = value} s c)
      (counted {digits = ds'} {value = value'} s' c') e =
    let tails : (ds ++ codes "}\r\n") ++ value ≡ (ds' ++ codes "}\r\n") ++ value' = cc in
    let same = digits_end ds ds' _ _ s.digits s'.digits (
      sym (append_assoc ds (codes "}\r\n") value)
      ∙ tails
      ∙ append_assoc ds' (codes "}\r\n") value') in
    cc

-- Bytes stand for one value at most.
pub value_unique :
    {written value value' : Bytes} → Denotes written value → Denotes written value' → value ≡ value'
value_unique d d' = same_denoted d d' refl
