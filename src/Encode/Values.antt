-- ===== src/Encode/Values.antt =====
-- `EncodeIntoContext` of imap-codec/src/codec/encode.rs for the core types, mailboxes and sequence
-- sets.
use imap_codec.Prelude.{ℕ, Option, List, [], ◌∷◌, ◌++◌, Bytes, codes, none, some}
use imap_codec.Core.Atom.{Atom}
use imap_codec.Core.AtomExt.{AtomExt}
use imap_codec.Core.Tag.{Tag}
use imap_codec.Core.Text.{Text}
use imap_codec.Core.Literal.{Literal, LiteralMode, sync, non_sync}
use imap_codec.Core.Quoted.{Quoted}
use imap_codec.Core.IString.{IString, literal, quoted}
use imap_codec.Core.Charset.{Charset}
use imap_codec.Core.NString.{NString}
use imap_codec.Core.AString.{AString, atom, string}
use imap_codec.Prelude.{length}
use imap_codec.Escape.{escape_quoted}
use imap_codec.Mailbox
use imap_codec.Mailbox.{ListCharString, ListMailbox, token, Mailbox, inbox, other}
use imap_codec.Sequence.Types.{
  SeqOrUid, Sequence, SequenceSet, value, asterisk, single, range, sequences,
}
use imap_codec.Sequence.Order
use imap_codec.Sequence.Normalize
use imap_codec.Encode.Context.{EncodeContext, write_all, push_line, push_literal}
use imap_codec.Encode.Decimal.{display}

unfoldable pub encode_tag : Tag → EncodeContext → EncodeContext
unfolding write_all
encode_tag tag ctx = write_all ctx tag.inner

unfoldable pub encode_text : Text → EncodeContext → EncodeContext
unfolding write_all
encode_text text ctx = write_all ctx text.inner

unfoldable pub encode_atom : Atom → EncodeContext → EncodeContext
unfolding write_all
encode_atom a ctx = write_all ctx a.inner

unfoldable pub encode_atom_ext : AtomExt → EncodeContext → EncodeContext
unfolding write_all
encode_atom_ext a ctx = write_all ctx a.inner

-- The line end of the announcement is part of the line.
unfoldable pub announcement : LiteralMode → Bytes → Bytes
unfolding display
announcement sync data_bytes = codes "{" ++ (display (length data_bytes) ++ codes "}\r\n")
announcement non_sync data_bytes = codes "{" ++ (display (length data_bytes) ++ codes "+}\r\n")

unfoldable pub encode_literal : Literal → EncodeContext → EncodeContext
unfolding announcement write_all push_line push_literal
encode_literal l ctx =
    let ctx = write_all ctx (announcement l.mode l.data_bytes) in
    let ctx = push_line ctx in let ctx = write_all ctx l.data_bytes in push_literal ctx l.mode

unfoldable pub encode_quoted : Quoted → EncodeContext → EncodeContext
unfolding escape_quoted write_all
encode_quoted q ctx = write_all ctx (codes "\"" ++ (escape_quoted q.inner ++ codes "\""))

unfoldable pub encode_istring : IString → EncodeContext → EncodeContext
unfolding encode_literal encode_quoted
encode_istring (literal val) ctx = encode_literal val ctx
encode_istring (quoted val) ctx = encode_quoted val ctx

-- The `match` of `encode_nstring`.
unfoldable pub encode_optional : Option IString → EncodeContext → EncodeContext
unfolding encode_istring write_all
encode_optional (some imap_str) ctx = encode_istring imap_str ctx
encode_optional none ctx = write_all ctx (codes "NIL")

unfoldable pub encode_nstring : NString → EncodeContext → EncodeContext
unfolding encode_optional
encode_nstring string_or_nil ctx = encode_optional string_or_nil.inner ctx

unfoldable pub encode_astring : AString → EncodeContext → EncodeContext
unfolding encode_atom_ext encode_istring
encode_astring (atom a) ctx = encode_atom_ext a ctx
encode_astring (string imap_str) ctx = encode_istring imap_str ctx

unfoldable pub encode_charset : Charset → EncodeContext → EncodeContext
unfolding encode_atom encode_quoted
encode_charset (Charset.atom a) ctx = encode_atom a ctx
encode_charset (Charset.quoted q) ctx = encode_quoted q ctx

unfoldable pub encode_mailbox : Mailbox → EncodeContext → EncodeContext
unfolding encode_astring write_all
encode_mailbox inbox ctx = write_all ctx (codes "INBOX")
encode_mailbox (other o) ctx = encode_astring o.inner ctx

unfoldable pub encode_list_char_string : ListCharString → EncodeContext → EncodeContext
unfolding write_all
encode_list_char_string lcs ctx = write_all ctx lcs.inner

unfoldable pub encode_list_mailbox : ListMailbox → EncodeContext → EncodeContext
unfolding encode_list_char_string encode_istring
encode_list_mailbox (token lcs) ctx = encode_list_char_string lcs ctx
encode_list_mailbox (Mailbox.string istr) ctx = encode_istring istr ctx

-- Every element but the last one is followed by the separator; `split_last` is `None` for no
-- element.
unfoldable pub join_serializable {ℓ} :
    {I : Type ℓ}
    → (I → EncodeContext → EncodeContext)
    → List I
    → Bytes
    → EncodeContext
    → EncodeContext
unfolding write_all
join_serializable encode_ctx [] sep ctx = ctx
join_serializable encode_ctx (last ∷ []) sep ctx = encode_ctx last ctx
join_serializable encode_ctx (item ∷ next ∷ elements) sep ctx =
    join_serializable encode_ctx (next ∷ elements) sep (write_all (encode_ctx item ctx) sep)

unfoldable pub encode_seq_or_uid : SeqOrUid → EncodeContext → EncodeContext
unfolding display write_all
encode_seq_or_uid (value number) ctx = write_all ctx (display number)
encode_seq_or_uid asterisk ctx = write_all ctx (codes "*")

-- The `match` of `encode_sequence`.
unfoldable pub encode_ends : Sequence → EncodeContext → EncodeContext
unfolding encode_seq_or_uid write_all
encode_ends (single seq_no) ctx = encode_seq_or_uid seq_no ctx
encode_ends (range from to) ctx =
    encode_seq_or_uid to (write_all (encode_seq_or_uid from ctx) (codes ":"))

unfoldable pub encode_sequence : Sequence → EncodeContext → EncodeContext
unfolding Order.normalize encode_ends
encode_sequence seq ctx = encode_ends (Order.normalize seq) ctx

-- The set is normalized first, with a `HashSet` that is walked over in some order.
unfoldable pub encode_sequence_set : (List ℕ → List ℕ) → SequenceSet → EncodeContext → EncodeContext
unfolding join_serializable encode_sequence Normalize.normalize
encode_sequence_set iteration_order set ctx =
    join_serializable encode_sequence (sequences (Normalize.normalize iteration_order set))
      (codes ",") ctx
