-- ===== src/Message/StatusItems.antt =====
-- imap-types/src/status.rs
use imap_codec.Prelude.{ℕ}

pub data StatusDataItemName : Type 0 where
  messages : StatusDataItemName
  recent : StatusDataItemName
  uid_next : StatusDataItemName
  uid_validity : StatusDataItemName
  unseen : StatusDataItemName
  deleted : StatusDataItemName
  deleted_storage : StatusDataItemName

pub data StatusDataItem : Type 0 where
  messages : ℕ → StatusDataItem
  recent : ℕ → StatusDataItem
  uid_next : ℕ → StatusDataItem
  uid_validity : ℕ → StatusDataItem
  unseen : ℕ → StatusDataItem
  deleted : ℕ → StatusDataItem
  deleted_storage : ℕ → StatusDataItem
