-- ===== src/Core/Tests.antt =====
-- Values of the core types (imap-types/src/core.rs).
use imap_codec.Prelude.{ℕ, ◌≡◌, ◌⊎◌, refl, true, Bytes, codes, All, ok}
use imap_codec.Indicators.{
  is_astring_char, is_atom_char, is_atom_specials, is_char, is_ctl, is_list_wildcards,
  is_quoted_specials, is_resp_specials, is_text_char, is_char8,
}
use imap_codec.Core.Validation.{
  validate_bytes, validate_nonempty, position, validate_bytes_cases, FirstInvalid, fail,
  invalid_byte_at,
}
use imap_codec.Core.AtomExt
use imap_codec.Core.Quoted
use imap_codec.Core.Literal
use imap_codec.Core.Literal.{sync}
use imap_codec.Core.IString
use imap_codec.Core.IString.{quoted, literal}
use imap_codec.Core.AString
use imap_codec.Core.AString.{AString, atom, string}
use imap_codec.Core.Representation.{
  AsString, AsAString, istring-AsString, astring-AsAString, as_ref-try_from,
}

abbrev two_lines : Bytes
two_lines = codes "a b\nc"

-- A line end needs a literal.
two_lines-literal :
    AString.try_from two_lines
    ≡ ok (string (literal (record { data_bytes = two_lines; mode = sync })))
unfolding AString.try_from AtomExt.try_from AtomExt.validate IString.try_from IString.literal_from
    Quoted.try_from Quoted.validate Literal.try_from Literal.validate validate_nonempty
    validate_bytes position is_astring_char is_atom_char is_atom_specials is_char is_ctl
    is_list_wildcards is_quoted_specials is_resp_specials is_text_char is_char8
two_lines-literal = refl

validate_bytes_cases_example :
    ((validate_bytes is_text_char two_lines ≡ ok tt) × All (λ c. is_text_char c ≡ true) two_lines)
    ⊎ ((b : ℕ) × (at : ℕ) × (validate_bytes is_text_char two_lines ≡ fail (invalid_byte_at b at))
        × FirstInvalid is_text_char two_lines b at)
validate_bytes_cases_example = validate_bytes_cases is_text_char two_lines

istring-AsString_example : AsString two_lines (IString.try_from two_lines)
istring-AsString_example = istring-AsString two_lines

astring-AsAString_example : AsAString two_lines (AString.try_from two_lines)
astring-AsAString_example = astring-AsAString two_lines

as_ref-try_from_example :
    AString.as_ref (string (literal (record { data_bytes = two_lines; mode = sync }))) ≡ two_lines
as_ref-try_from_example = as_ref-try_from two_lines two_lines-literal
