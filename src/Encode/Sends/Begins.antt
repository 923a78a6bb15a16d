-- ===== src/Encode/Sends/Begins.antt =====
-- A message (imap-codec/src/codec/encode.rs) that begins with a text.
use imap_codec.Prelude.{
  ◌≡◌, refl, true, Bool, false, List, [], ◌∷◌, ◌++◌, Bytes, codes, all, All, if◌then◌else◌,
}
use imap_codec.Encode.Context.{EncodeContext, write_all}
use imap_codec.Encode.Writes.{Write, text_write, write_to, write_each}
use imap_codec.Encode.Settled.{is_plain, Settled-plain}
use imap_codec.Encode.Strings.{IsSettledWrite}
use imap_codec.Encode.Writer.{Writer, ◌>>◌, write}
use imap_codec.Encode.Sends.{Sends}

-- The first write starts with the text, and has neither line end nor opening brace; texts and
-- literals follow.
pub record Begins (text : Bytes) (writer : Writer) : Type 0 where
  pub more : Bytes
  pub writes : List Write
  pub encodes :
      (ctx : EncodeContext) → writer ctx ≡ write_each writes (write_all ctx (text ++ more))
  pub plain : all is_plain (text ++ more) ≡ true
  pub settled : All IsSettledWrite writes

pub Begins->> :
    (text more : Bytes) {rest : Writer}
    → all is_plain (text ++ more) ≡ true
    → Sends rest
    → Begins text (write (text ++ more) >> rest)
unfolding ◌>>◌ write
Begins->> text more plain s = record {
  more = more;
  writes = s.writes;
  encodes = λ ctx. s.encodes (write_all ctx (text ++ more));
  plain = plain;
  settled = s.settled;
}

pub Begins-write :
    (text : Bytes) → all is_plain (text ++ []) ≡ true → Begins text (write (text ++ []))
unfolding write write_each
Begins-write text plain = record {
  more = [];
  writes = [];
  encodes = λ ctx. refl;
  plain = plain;
  settled = tt;
}

-- The same behind `UID `.
pub Begins-if :
    (uid : Bool) (text more : Bytes) {rest : Writer}
    → all is_plain (text ++ more) ≡ true
    → Sends rest
    → Begins
        ((if uid then codes "UID " else []) ++ text)
        ((if uid then write (codes "UID " ++ (text ++ more)) else write (text ++ more)) >> rest)
Begins-if true text more plain s = Begins->> (codes "UID " ++ text) more plain s
Begins-if false text more plain s = Begins->> text more plain s

pub Begins-Sends : {text : Bytes} {writer : Writer} → Begins text writer → Sends writer
unfolding write_each write_to
Begins-Sends {text} b = record {
  writes = text_write (text ++ b.more) ∷ b.writes;
  encodes = b.encodes;
  settled = (Settled-plain (text ++ b.more) b.plain, b.settled);
}
