-- ===== src/Escape.antt =====
-- The escaping functions of imap-types/src/utils.rs.
pub mod Quoted
pub mod Printable
mod Tests
use imap_codec.Prelude.{
  ℕ, ◌+◌, ◌-◌, ◌/◌, ◌%◌, Bool, true, false, ◌&&◌, List, [], ◌∷◌, ◌++◌, Bytes, codes, leb, ltb, ◌==◌,
  if◌then◌else◌, any,
}

abbrev pub backslash : ℕ
backslash = b'\\'

abbrev pub quote : ℕ
quote = b'"'

-- `str::replace` of one character.
unfoldable pub replace_char : ℕ → Bytes → Bytes → Bytes
replace_char c to [] = []
replace_char c to (x ∷ s) = (if x == c then to else x ∷ []) ++ replace_char c to s

-- `str::contains` and `str::replace` of two characters: matches are found from the left and do not
-- overlap.
unfoldable pub contains_pair : ℕ → ℕ → Bytes → Bool
contains_pair a b [] = false
contains_pair a b (x ∷ []) = false
contains_pair a b (x ∷ y ∷ s) = elim (x == a && y == b) [
  | true ↦ true
  | false ↦ contains_pair a b (y ∷ s)
]

unfoldable pub replace_pair : ℕ → ℕ → ℕ → Bytes → Bytes
replace_pair a b to [] = []
replace_pair a b to (x ∷ []) = x ∷ []
replace_pair a b to (x ∷ y ∷ s) = elim (x == a && y == b) [
  | true ↦ to ∷ replace_pair a b to s
  | false ↦ x ∷ replace_pair a b to (y ∷ s)
]

unfoldable pub escape_quoted : Bytes → Bytes
escape_quoted unescaped =
    let escaped =
      if any (λ c. c == backslash) unescaped
      then replace_char backslash (backslash ∷ backslash ∷ []) unescaped
      else unescaped in
    if any (λ c. c == quote) escaped
    then replace_char quote (backslash ∷ quote ∷ []) escaped
    else escaped

unfoldable pub unescape_quoted : Bytes → Bytes
unescape_quoted escaped =
    let unescaped =
      if contains_pair backslash backslash escaped
      then replace_pair backslash backslash backslash escaped
      else escaped in
    if contains_pair backslash quote unescaped
    then replace_pair backslash quote quote unescaped
    else unescaped

-- `{:02x}` of a byte.
abbrev hex_digit : ℕ → ℕ
hex_digit d = if ltb d 10 then b'0' + d else b'a' + (d - 10)

unfoldable pub hex_escape : ℕ → Bytes
hex_escape byte = backslash ∷ b'x' ∷ hex_digit (byte / 16) ∷ hex_digit (byte % 16) ∷ []

-- The `match` of `escape_byte_string`, with its arms in order.
unfoldable pub escape_byte : ℕ → Bytes
escape_byte byte =
    if leb byte 0x08
    then hex_escape byte
    else if byte == 0x09
    then codes "\\t"
    else if byte == 0x0a
    then codes "\\n"
    else if leb byte 0x0c
    then hex_escape byte
    else if byte == 0x0d
    then codes "\\r"
    else if leb byte 0x1f
    then hex_escape byte
    else if leb byte 0x21
    then byte ∷ []
    else if byte == 0x22
    then codes "\\\""
    else if leb byte 0x5b
    then byte ∷ []
    else if byte == 0x5c
    then codes "\\\\"
    else if leb byte 0x7e
    then byte ∷ []
    else hex_escape byte

unfoldable pub escape_byte_string : Bytes → Bytes
escape_byte_string [] = []
escape_byte_string (byte ∷ bytes) = escape_byte byte ++ escape_byte_string bytes
