-- ===== src/Tests.antt =====
-- Concrete runs: the properties applied to inputs that exercise the code.
mod Wire
mod Push
mod Messages
mod Server
mod Runtime
mod Recording
mod Capture
mod Table
mod Mcp
mod Symbolication
