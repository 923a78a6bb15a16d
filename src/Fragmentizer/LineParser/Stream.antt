-- ===== src/Fragmentizer/LineParser/Stream.antt =====
-- The line parser of imap-codec/src/fragmentizer.rs over input that arrives in pieces.
use imap_codec.Prelude.{ℕ, ◌+◌, ◌≡◌, Option, none, some, [], ◌∷◌, ◌++◌, Bytes, arith}
use imap_codec.Fragmentizer.Fragment.{FragmentInfo}
use imap_codec.Fragmentizer.LineParser.{LineParser, step, parse}

-- What the parser does on a second piece, if the first held no complete line.
abbrev pub continue :
    Bytes → LineParser × ℕ × Option FragmentInfo → LineParser × ℕ × Option FragmentInfo
continue ys (p, count, some found) = (p, count, some found)
continue ys (p, count, none) = let (p', more, found) = parse p ys in (p', count + more, found)

-- Parsing two pieces one after the other is parsing them at once: where the input was cut is not
-- seen in the parser's state, in the number of parsed bytes or in the line.
pub parse-append : (p : LineParser) (xs ys : Bytes) → parse p (xs ++ ys) ≡ continue ys (parse p xs)
unfolding parse
parse-append p [] ys = ground arith
parse-append p (b ∷ xs) ys = ground (arith, parse-append (step p b).0 xs ys)
