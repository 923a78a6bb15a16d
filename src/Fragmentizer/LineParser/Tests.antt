-- ===== src/Fragmentizer/LineParser/Tests.antt =====
-- Runs of the line parser (imap-codec/src/fragmentizer.rs).
use imap_codec.Prelude.{◌≡◌, ◌↔◌, Option, some, ◌∷◌, ◌++◌, Bytes, codes, arith}
use imap_codec.Core.Literal.{non_sync}
use imap_codec.Fragmentizer.Fragment.{LiteralAnnouncement, LineEnding, cr_lf, line}
use imap_codec.Fragmentizer.LineParser.{new, parse, other, line_facts}
use imap_codec.Fragmentizer.LineParser.Scan.{NoLf, scan}
use imap_codec.Fragmentizer.LineParser.Stream.{continue, parse-append}
use imap_codec.Fragmentizer.LineParser.Grammar.{LineAnnounces}
use imap_codec.Fragmentizer.LineParser.Announce.{announces_iff}
use imap_codec.Fragmentizer.LineParser.Line.{EndsInCr, parse-new_line}

abbrev announcing : Bytes
announcing = codes "A {12+}\r"

parse-append_example :
    parse (new 5) (codes "A {1" ++ codes "2+}\r\n")
    ≡ continue (codes "2+}\r\n") (parse (new 5) (codes "A {1"))
parse-append_example = parse-append (new 5) (codes "A {1") (codes "2+}\r\n")

announces_iff_example :
    ((line_facts (scan other announcing)).0 ≡ some (record { mode = non_sync; length = 12 }))
    ↔ LineAnnounces announcing (record { mode = non_sync; length = 12 })
announces_iff_example = announces_iff announcing (record { mode = non_sync; length = 12 })

announcing-NoLf : NoLf announcing
announcing-NoLf = omega arith

parse-new_line_example :
    (announcement : Option LiteralAnnouncement) × (ending : LineEnding) × ((parse
        (new 5)
        (announcing ++ b'\n' ∷ codes "abc")).1
      ≡ 9)
    × ((parse (new 5) (announcing ++ b'\n' ∷ codes "abc")).2 ≡ some (line 5 14 announcement ending))
    × ((a : LiteralAnnouncement) → (announcement ≡ some a) ↔ LineAnnounces announcing a)
    × ((ending ≡ cr_lf) ↔ EndsInCr announcing)
parse-new_line_example = parse-new_line 5 announcing (codes "abc") announcing-NoLf
