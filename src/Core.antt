-- ===== src/Core.antt =====
-- imap-types/src/core.rs: the validated byte strings that IMAP messages are made of. A `str` is
-- modelled by its UTF-8 bytes.
pub mod Validation
pub mod Atom
pub mod AtomExt
pub mod Tag
pub mod Text
pub mod Quoted
pub mod QuotedChar
pub mod Literal
pub mod IString
pub mod NString
pub mod AString
pub mod Charset
pub mod VecN
pub mod Representation
mod Tests
