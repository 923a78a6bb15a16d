-- ===== src/Message/Envelope.antt =====
-- imap-types/src/envelope.rs
use imap_codec.Prelude.{List}
use imap_codec.Core.NString.{NString}

pub record Address : Type 0 where
  pub name : NString
  pub adl : NString
  pub mailbox : NString
  pub host : NString

pub record Envelope : Type 0 where
  pub date : NString
  pub subject : NString
  pub from : List Address
  pub sender : List Address
  pub reply_to : List Address
  pub to : List Address
  pub cc_to : List Address
  pub bcc : List Address
  pub in_reply_to : NString
  pub message_id : NString
