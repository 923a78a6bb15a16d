-- ===== src/Indicators.antt =====
-- The byte classes of the IMAP grammar: the module `indicators` of imap-types/src/utils.rs.
use imap_codec.Prelude.{ℕ, Bool, ◌&&◌, ◌||◌, not, leb, ◌==◌}

-- `matches!(byte, 0x01..=0x7f)`
unfoldable pub is_char : ℕ → Bool
is_char byte = leb 0x01 byte && leb byte 0x7f

unfoldable pub is_ctl : ℕ → Bool
is_ctl byte = leb byte 0x1f || byte == 0x7f

unfoldable pub is_quoted_specials : ℕ → Bool
is_quoted_specials byte = byte == b'"' || byte == b'\\'

unfoldable pub is_list_wildcards : ℕ → Bool
is_list_wildcards i = i == b'%' || i == b'*'

unfoldable pub is_resp_specials : ℕ → Bool
is_resp_specials i = i == b']'

unfoldable pub is_char8 : ℕ → Bool
is_char8 i = not (i == 0)

unfoldable pub is_text_char : ℕ → Bool
is_text_char c =
    (leb 0x01 c && leb c 0x09) || (leb 0x0b c && leb c 0x0c) || (leb 0x0e c && leb c 0x7f)

unfoldable pub is_any_text_char_except_quoted_specials : ℕ → Bool
unfolding is_text_char is_quoted_specials
is_any_text_char_except_quoted_specials byte = is_text_char byte && not (is_quoted_specials byte)

-- The arms of the `match`, in order; each guard returns `true`.
unfoldable pub is_atom_specials : ℕ → Bool
unfolding is_ctl is_list_wildcards is_quoted_specials is_resp_specials
is_atom_specials i =
    (i == b'(' || i == b')' || i == b'{' || i == b' ')
    || is_ctl i
    || is_list_wildcards i
    || is_quoted_specials i
    || is_resp_specials i

unfoldable pub is_atom_char : ℕ → Bool
unfolding is_char is_atom_specials
is_atom_char b = is_char b && not (is_atom_specials b)

unfoldable pub is_astring_char : ℕ → Bool
unfolding is_atom_char is_resp_specials
is_astring_char i = is_atom_char i || is_resp_specials i

unfoldable pub is_list_char : ℕ → Bool
unfolding is_atom_char is_list_wildcards is_resp_specials
is_list_char i = is_atom_char i || is_list_wildcards i || is_resp_specials i
