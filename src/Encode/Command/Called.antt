-- ===== src/Encode/Command/Called.antt =====
-- The first words of a command (imap-codec/src/codec/encode.rs and imap-types/src/command.rs).
use imap_codec.Prelude.{◌≡◌, ◌∙◌, refl, [], ap, Bytes, ◌++◌, append_assoc, codes}
use imap_codec.Encode.Command
use imap_codec.Encode.Command.{encode_command}
use imap_codec.Encode.Context.{EncodeContext, new, write_all, into_items, dump}
use imap_codec.Encode.Responses.Ambiguity.{written, dump-write_each}
use imap_codec.Encode.Sends.Called.{called}
use imap_codec.Encode.Sends.Commands.{IsEncodableBody, Begins-command_body}
use imap_codec.Encode.Sends.Sets.{IsPlain}
use imap_codec.Encode.Values.{encode_tag}
use imap_codec.Encode.Writer.{◌>>◌, write}
use imap_codec.Message.Command.{Command}
use imap_codec.Message.Packages.{Packages}

-- An encoded command is its tag, a space, `UID ` for a command on unique identifiers, the name
-- that `name` gives, and something else, if the values in the command are those that their types
-- allow, and the other packages write no line end and no opening brace.
pub encode-called :
    {NaiveDate DateTime : Type 0} (packages : Packages NaiveDate DateTime)
    (command : Command NaiveDate DateTime)
    → IsPlain packages
    → IsEncodableBody command.body
    → (rest : Bytes) × (dump (Command.encode packages command)
        ≡ command.tag.inner ++ (codes " " ++ (called command.body ++ rest)))
unfolding Command.encode encode_command encode_tag ◌>>◌ write write_all new
encode-called packages command plain h =
    let b = Begins-command_body packages plain command.body h in
    let open_line = command.tag.inner ++ codes " " in
    let ctx : EncodeContext = record { accumulator = open_line; items = [] } in
    (
      b.more ++ (written b.writes ++ codes "\r\n"),
      ap (λ (c : EncodeContext). dump (into_items (write_all c (codes "\r\n")))) (b.encodes ctx)
          ∙ dump-write_each b.writes (open_line ++ (called command.body ++ b.more))
          ∙ rw (append_assoc, append_assoc, append_assoc) refl,
    )
