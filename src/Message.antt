-- ===== src/Message.antt =====
-- The messages of imap-types: the data that commands and responses are made of, as far as it is
-- not part of a module of its own.
pub mod Packages
pub mod Names
pub mod Auth
pub mod Flag
pub mod StatusItems
pub mod Extensions
pub mod Search
pub mod Fetch
pub mod Envelope
pub mod Body
pub mod Response
pub mod Command
pub mod Continuation
mod Tests
