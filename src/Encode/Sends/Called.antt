-- ===== src/Encode/Sends/Called.antt =====
-- What a command (imap-types/src/command.rs) is called in the protocol.
use imap_codec.Prelude.{Bool, true, false, [], ◌++◌, Bytes, codes, if◌then◌else◌}
use imap_codec.Message.Command.{CommandBody, name}

-- The commands on unique identifiers.
abbrev pub is_uid : {NaiveDate DateTime : Type 0} → CommandBody NaiveDate DateTime → Bool
is_uid (CommandBody.expunge_uid sequence_set) = true
is_uid (CommandBody.search charset criteria uid) = uid
is_uid (CommandBody.sort sort_criteria charset search_criteria uid) = uid
is_uid (CommandBody.thread algorithm charset search_criteria uid) = uid
is_uid (CommandBody.fetch sequence_set macro_or_item_names uid) = uid
is_uid (CommandBody.store sequence_set kind response flags uid) = uid
is_uid (CommandBody.copy sequence_set mailbox uid) = uid
is_uid (CommandBody.move sequence_set mailbox uid) = uid
is_uid body = false

unfoldable pub called : {NaiveDate DateTime : Type 0} → CommandBody NaiveDate DateTime → Bytes
unfolding name
called body = (if is_uid body then codes "UID " else []) ++ name body
