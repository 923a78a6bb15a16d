-- ===== src/Escape/Tests.antt =====
-- A quoted text (imap-types/src/utils.rs).
use imap_codec.Prelude.{All, ◌∷◌, arith}
use imap_codec.Escape.{escape_byte_string}
use imap_codec.Escape.Printable.{IsPrintable, escape_byte_string-IsPrintable}
use imap_codec.Prelude.{◌≡◌, codes}
use imap_codec.Escape.{escape_quoted, unescape_quoted}
use imap_codec.Escape.Quoted.{unescape_quoted-escape_quoted}

unescape_quoted-escape_quoted_example :
    unescape_quoted (escape_quoted (codes "a\\\"b")) ≡ codes "a\\\"b"
unescape_quoted-escape_quoted_example = unescape_quoted-escape_quoted (codes "a\\\"b")

escape_byte_string-IsPrintable_example :
    All IsPrintable (escape_byte_string (0 ∷ 9 ∷ 255 ∷ codes "a\"\\"))
escape_byte_string-IsPrintable_example =
    escape_byte_string-IsPrintable (0 ∷ 9 ∷ 255 ∷ codes "a\"\\") (omega arith)
