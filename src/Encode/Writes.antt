-- ===== src/Encode/Writes.antt =====
-- What a message that is encoded piece by piece (imap-codec/src/codec/encode.rs) is made of: texts
-- and literals, with a line end at the end.
use imap_codec.Prelude.{◌≡◌, ◌∙◌, refl, List, [], ◌∷◌, ◌++◌, append_assoc, Bytes, codes}
use imap_codec.Core.Literal.{Literal}
use imap_codec.Encode.Context.{
  EncodeContext, Fragment, line, literal, new, write_all, push_line, push_literal, into_items,
}
use imap_codec.Encode.Values.{announcement, encode_literal}

-- The two ways in which every `encode_ctx` writes into its context.
pub data Write : Type 0 where
  text_write : (text : Bytes) → Write
  literal_write : (l : Literal) → Write

unfoldable pub write_to : Write → EncodeContext → EncodeContext
unfolding write_all encode_literal
write_to (text_write text) ctx = write_all ctx text
write_to (literal_write l) ctx = encode_literal l ctx

unfoldable pub write_each : List Write → EncodeContext → EncodeContext
unfolding write_to
write_each [] ctx = ctx
write_each (w ∷ writes) ctx = write_each writes (write_to w ctx)

-- `encode` of a message that ends in `\r\n`.
unfoldable pub encode : List Write → List Fragment
unfolding write_each write_all new into_items
encode writes = into_items (write_all (write_each writes new) (codes "\r\n"))

-- The fragments of a message, with the text of the current line as the first argument.
abbrev pub fragments_of : Bytes → List Write → List Fragment
fragments_of open_line [] = line (open_line ++ codes "\r\n") ∷ []
fragments_of open_line (text_write text ∷ writes) = fragments_of (open_line ++ text) writes
fragments_of open_line (literal_write l ∷ writes) =
    line (open_line ++ announcement l.mode l.data_bytes)
    ∷ literal l.data_bytes l.mode
    ∷ fragments_of [] writes

-- A context whose accumulator is not empty.
into_items-line :
    (open_line : Bytes) (items : List Fragment)
    → into_items (record { accumulator = open_line ++ codes "\r\n"; items = items })
      ≡ items ++ line (open_line ++ codes "\r\n") ∷ []
unfolding into_items
into_items-line [] items = refl
into_items-line (b ∷ open_line) items = refl

pub into_items-write_each :
    (writes : List Write) (open_line : Bytes) (items : List Fragment)
    → into_items (
        write_all
          (write_each writes (record { accumulator = open_line; items = items }))
          (codes "\r\n"))
      ≡ items ++ fragments_of open_line writes
unfolding write_each write_to write_all encode_literal push_line push_literal
into_items-write_each [] open_line items = into_items-line open_line items
into_items-write_each (text_write text ∷ writes) open_line items =
    into_items-write_each writes (open_line ++ text) items
into_items-write_each (literal_write l ∷ writes) open_line items =
    into_items-write_each writes [] (
      (items ++ line (open_line ++ announcement l.mode l.data_bytes) ∷ [])
      ++ literal l.data_bytes l.mode ∷ [])
    ∙ rw (append_assoc, append_assoc)

pub encode-fragments_of : (writes : List Write) → encode writes ≡ fragments_of [] writes
unfolding encode new
encode-fragments_of writes = into_items-write_each writes [] []
