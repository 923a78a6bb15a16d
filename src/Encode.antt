-- ===== src/Encode.antt =====
-- imap-codec/src/codec/encode.rs: values are written into a context, which collects lines and
-- literals. Writing into a context never fails, so that every `io::Result` is `Ok` and every `?`
-- goes on.
pub mod Context
pub mod Decimal
pub mod Values
pub mod Writes
pub mod Reading
pub mod Rounds
pub mod Delivery
pub mod Limited
pub mod Settled
pub mod Strings
pub mod Grammar
pub mod Spelled
pub mod Patterns
pub mod Writer
pub mod Sends
pub mod Items
pub mod SearchKeys
pub mod Threads
pub mod Bodies
pub mod Codes
pub mod Responses
pub mod Command
mod Tests
