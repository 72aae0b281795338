-- ===== src/Mcp.antt =====
-- crates/moire-web/src/mcp/mod.rs: what the tools for agents compute from a snapshot.
pub mod Frames
pub mod Graph
pub mod Chains
