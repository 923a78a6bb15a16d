-- ===== src/Encode/Spelled.antt =====
-- What the encoder (imap-codec/src/codec/encode.rs) writes for a string that `AString::try_from`
-- (imap-types/src/core.rs) accepts, by the grammar of IMAP strings.
use imap_codec.Prelude.{
  ℕ, ◌≤◌, ◌≡◌, ◌≢◌, refl, true, [], ◌∷◌, ◌++◌, Bytes, codes, length, All, ok, err, subst,
  append-nil, arith, inl, inr, Bool-cases, ◌==◌,
}
use imap_codec.Indicators.{
  is_text_char, is_quoted_specials, is_any_text_char_except_quoted_specials,
}
use imap_codec.Escape.{backslash, quote}
use imap_codec.Escape.Quoted.{escaped, escaped_byte, escape_quoted-escaped}
use imap_codec.Core.Validation.{Checked}
use imap_codec.Core.AString
use imap_codec.Core.Literal.{sync}
use imap_codec.Core.IString.{literal, quoted}
use imap_codec.Core.AString.{AString, atom, string}
use imap_codec.Core.Representation.{
  as_quoted, as_literal, AsAString, as_atom, as_string, refused, astring-AsAString,
}
use imap_codec.Fragmentizer.LineParser.{u32_max}
use imap_codec.Encode.Context.{
  new, into_items, dump, write_all, push_line, push_literal, fragment_data,
}
use imap_codec.Encode.Grammar.{
  QuotedText, done, plain, special, Denotes, value_unique, bare, in_quotes, counted,
}
use imap_codec.Encode.Decimal.{display, display-Spells}
use imap_codec.Encode.Values.{
  encode_astring, encode_atom_ext, encode_istring, encode_quoted, encode_literal, announcement,
}

QuotedText-byte :
    (b : ℕ) {text value : Bytes}
    → is_text_char b ≡ true
    → QuotedText text value
    → QuotedText (escaped_byte b ++ text) (b ∷ value)
unfolding is_any_text_char_except_quoted_specials is_quoted_specials
QuotedText-byte b h rest = elim (Bool-cases (b == backslash)) [
  | inl e ↦ let same : b ≡ backslash = ground arith in rw same (special refl rest)
  | inr e ↦ elim (Bool-cases (b == quote)) [
    | inl e' ↦ let same : b ≡ quote = ground arith in rw same (special refl rest)
    | inr e' ↦ rw (e, e') (plain (ground arith) rest)
  ]
]

QuotedText-escaped :
    (value : Bytes) → All (λ b. is_text_char b ≡ true) value → QuotedText (escaped value) value
QuotedText-escaped [] h = done
QuotedText-escaped (b ∷ value) (h, hs) = QuotedText-byte b h (QuotedText-escaped value hs)

dump-atom :
    (value : Bytes)
    → value ≢ []
    → dump (into_items (encode_astring (atom (record { inner = value })) new)) ≡ value
unfolding encode_astring encode_atom_ext write_all new into_items dump fragment_data
dump-atom [] h = absurd (h refl)
dump-atom (b ∷ value) h = append-nil (b ∷ value)

dump-quoted :
    (value : Bytes)
    → dump (into_items (encode_astring (string (quoted (record { inner = value }))) new))
      ≡ codes "\"" ++ (escaped value ++ codes "\"")
unfolding encode_astring encode_istring encode_quoted write_all new into_items dump fragment_data
dump-quoted value = rw (append-nil, escape_quoted-escaped value)

dump-literal :
    (value : Bytes)
    → dump (
        into_items
          (encode_astring (string (literal (record { data_bytes = value; mode = sync }))) new))
      ≡ (codes "{" ++ (display (length value) ++ codes "}\r\n")) ++ value
unfolding encode_astring encode_istring encode_literal announcement push_line push_literal write_all
    new into_items dump fragment_data
dump-literal value = rw append-nil

abbrev Written : Bytes → Checked AString → Type 0
Written value (ok a) = Denotes (dump (into_items (encode_astring a new))) value
Written value (err e) = Unit

written :
    {value : Bytes} {r : Checked AString}
    → length value ≤ u32_max
    → AsAString value r
    → Written value r
written size (as_atom nonempty chars) = rw (dump-atom _ nonempty) (bare nonempty chars)
written size (as_string n (as_quoted texts)) =
    rw (dump-quoted _) (in_quotes (QuotedText-escaped _ texts))
written size (as_string n (as_literal first bytes)) =
    rw (dump-literal _) (counted (display-Spells _ size) bytes)
written size (refused first) = tt

-- If a byte string has a length of 32 bits and `AString::try_from` accepts it, then the bytes that
-- the encoder writes for the result are a string of the grammar that stands for this byte string
-- and for no other: the astring characters themselves, or text between quotes with a backslash in
-- front of exactly the quotes and the backslashes, or an announcement with the length in decimal
-- digits and then the bytes.
pub encode_astring-Denotes :
    (value : Bytes) {a : AString}
    → length value ≤ u32_max
    → AString.try_from value ≡ ok a
    → Denotes (dump (into_items (encode_astring a new))) value
      × ((value' : Bytes)
          → Denotes (dump (into_items (encode_astring a new))) value'
          → value ≡ value')
encode_astring-Denotes value size h =
    let denotes = subst (Written value) h (written size (astring-AsAString value)) in
    (denotes, λ value' other. value_unique denotes other)
