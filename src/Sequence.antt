-- ===== src/Sequence.antt =====
-- imap-types/src/sequence.rs: sequence sets, the sets of message numbers that commands name.
pub mod Types
pub mod Iter
pub mod Parse
pub mod Convert
pub mod Order
pub mod Normalize
mod Tests
