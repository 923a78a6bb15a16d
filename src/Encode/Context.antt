-- ===== src/Encode/Context.antt =====
-- `EncodeContext`, `Fragment` and `Encoded` of imap-codec/src/codec/encode.rs.
use imap_codec.Prelude.{List, [], ◌∷◌, ◌++◌, Bytes, Option, none, some}
use imap_codec.Core.Literal.{LiteralMode}

pub data Fragment : Type 0 where
  line : (data_bytes : Bytes) → Fragment
  literal : (data_bytes : Bytes) (mode : LiteralMode) → Fragment

pub record EncodeContext : Type 0 where
  pub accumulator : Bytes
  pub items : List Fragment

unfoldable pub new : EncodeContext
new = record { accumulator = []; items = [] }

-- `Write::write`, which takes all bytes, and so `write_all` and `write!`.
unfoldable pub write_all : EncodeContext → Bytes → EncodeContext
write_all ctx buf = record ctx { accumulator = ctx.accumulator ++ buf }

unfoldable pub push_line : EncodeContext → EncodeContext
push_line ctx = record { accumulator = []; items = ctx.items ++ line ctx.accumulator ∷ [] }

unfoldable pub push_literal : EncodeContext → LiteralMode → EncodeContext
push_literal ctx mode = record {
  accumulator = [];
  items = ctx.items ++ literal ctx.accumulator mode ∷ [];
}

unfoldable pub into_items : EncodeContext → List Fragment
into_items ctx = elim ctx.accumulator [
  | [] ↦ ctx.items
  | b ∷ rest ↦ ctx.items ++ line (b ∷ rest) ∷ []
]

unfoldable pub fragment_data : Fragment → Bytes
fragment_data (line data_bytes) = data_bytes
fragment_data (literal data_bytes mode) = data_bytes

-- `Encoded::dump`
unfoldable pub dump : List Fragment → Bytes
unfolding fragment_data
dump [] = []
dump (fragment ∷ items) = fragment_data fragment ++ dump items

-- `Iterator::next` of `Encoded`.
unfoldable pub next : List Fragment → Option Fragment × List Fragment
next [] = (none, [])
next (fragment ∷ items) = (some fragment, items)
