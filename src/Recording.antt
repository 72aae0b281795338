-- ===== src/Recording.antt =====
-- crates/moire-web/src/recording and crates/moire-web/src/api/recording.rs: the ring of captured
-- snapshots, and the requests that start, stop, read, export and import it.
pub mod Session
pub mod Requests
