-- ===== src/Runtime.antt =====
-- crates/moire-runtime/src: the in-process graph database and its change stream.
pub mod Log
pub mod Db
pub mod Replay
pub mod Modules
pub mod Push
