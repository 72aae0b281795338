-- ===== src/Wire.antt =====
-- crates/moire-wire/src/lib.rs: length-prefixed frames and the protocol magic.
pub mod Frame
pub mod Messages
