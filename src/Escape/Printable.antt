-- ===== src/Escape/Printable.antt =====
-- What `escape_byte_string` (imap-types/src/utils.rs) can print.
use imap_codec.Prelude.{ℕ, ◌≤◌, ◌<◌, [], ◌∷◌, Bytes, All, All-append, arith}
use imap_codec.Escape.{escape_byte, hex_escape, escape_byte_string}

abbrev pub IsPrintable : ℕ → Type 0
IsPrintable b = (0x20 ≤ b) × (b ≤ 0x7e)

hex_escape-IsPrintable : (b : ℕ) → b < 256 → All IsPrintable (hex_escape b)
unfolding hex_escape
hex_escape-IsPrintable b h = ground arith

escape_byte-IsPrintable : (b : ℕ) → b < 256 → All IsPrintable (escape_byte b)
unfolding escape_byte
escape_byte-IsPrintable b h = ground (arith, hex_escape-IsPrintable b h)

-- For numbers that are bytes, every character of the escaped text is from 0x20 to 0x7e.
pub escape_byte_string-IsPrintable :
    (bytes : Bytes) → All (λ b. b < 256) bytes → All IsPrintable (escape_byte_string bytes)
unfolding escape_byte_string
escape_byte_string-IsPrintable [] h = tt
escape_byte_string-IsPrintable (b ∷ bytes) (hb, h) =
    All-append IsPrintable (escape_byte b) (escape_byte_string bytes) (escape_byte-IsPrintable b hb)
      (escape_byte_string-IsPrintable bytes h)
