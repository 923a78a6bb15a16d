-- ===== src/Fragmentizer.antt =====
-- imap-codec/src/fragmentizer.rs: a stream of IMAP bytes is cut into lines and literals.
pub mod Fragment
pub mod LineParser
pub mod LiteralParser
pub mod State
pub mod ParseTag
mod Tests
