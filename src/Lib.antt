-- ===== src/Lib.antt =====
-- The diagnostics runtime of this repository and the parts of its server that keep state: what the
-- instrumented process records about itself, how it streams the changes, and how the server reads
-- frames, records snapshots and answers questions about them.
--
-- The parts and how they interact. An instrumented process keeps one database of entities, scopes,
-- links, edges and events. Each method that changes it appends changes to a log, which is compacted
-- when it grows; the push loop pulls changes since a cursor and sends them, as JSON in
-- length-prefixed frames, to the server. The server keeps a table of connections, coordinates cuts
-- and snapshots over them, and keeps the recorded snapshots in a bounded ring.
--
-- Files and code:
--   Types, Types/Bodies, Types/Change, Types/OpaqueId: crates/moire-types/src (objects, diff.rs,
--     primitives.rs). Newtypes are synonyms; payload structs of one field are that field.
--   Trace and below: crates/moire-trace-types/src/lib.rs, identifiers of 16 + 37 bits, addresses,
--     SQLite conversions.
--   Wire/Frame and below: crates/moire-wire/src/lib.rs, frames and the protocol magic.
--   Wire/Messages and below: crates/moire-wire/src/lib.rs, the messages; and the loops that read
--     them, `read_messages` in crates/moire-web/src/tcp/mod.rs and `read_server_message` in
--     crates/moire-runtime/src/dashboard.rs.
--   Runtime/Modules and below: crates/moire-runtime/src/lib.rs, the table of modules and the
--     backtrace records. The statics of the process are values that are passed on.
--   Runtime/Push and below: crates/moire-runtime/src/dashboard.rs, what a session writes at its
--     start (`start_session`), on a tick of its timer (`tick`) and for a message of the server
--     (`answer`). A flush reads the records and the modules under two locks, and takes what each
--     finds.
--   Server: crates/moire-web/src/app, the state that the server's tasks share.
--   Server/Connections and below: crates/moire-web/src/tcp/mod.rs, the start, the messages and the
--     end of a connection. Server/Handshake and below: what it checks of a handshake, and the rows
--     that crates/moire-web/src/db/persist.rs makes of a backtrace record.
--   Server/Cuts, Server/Snapshots and below: crates/moire-web/src/api/connections.rs and snapshot.rs.
--   Server/Table and below: crates/moire-web/src/snapshot/table.rs, the frame catalogue over rows
--     that the database returned, with the process's registry of frame identifiers.
--   Server/Symbolication and below: `snapshot_symbolication_ws_task` of
--     crates/moire-web/src/api/snapshot.rs, the updates that a client of a snapshot gets. A round
--     has the table that the database gives, and whether the client takes the update.
--   Mcp/Frames, Mcp/Graph, Mcp/Chains and below: crates/moire-web/src/mcp/mod.rs, the frames shown
--     of a backtrace, the graph of who waits for whom, and the search for chains of waits. A
--     `HashMap` is the map in key order, where the code does not depend on the order.
--   Server/History and below: `remember_snapshot` of crates/moire-web/src/app/mod.rs.
--   Server/Steps and below: the tasks of the server as a step relation on the shared state.
--   Runtime/Log and below: crates/moire-runtime/src/db.rs, the change log: `push_change`,
--     `compact_changes`, `to_change`, `pull_changes_since`.
--   Runtime/Db and below: crates/moire-runtime/src/db.rs, the methods of `RuntimeDb`. A method that
--     mutates `self` returns the new database; one that may panic returns a `Result`. `Context`
--     holds what a method reads elsewhere: the process scope, the task, the clock, a fresh id.
--   Runtime/Replay and below: the specification of the change stream as the comments of
--     crates/moire-types/src/diff.rs give it. `apply` is what one change does to a client's graph,
--     and `Refines json before after` says that the step from `before` to `after` pushed changes
--     whose replay on the graph before gives the graph after.
--   Recording/Session and below: crates/moire-web/src/recording/session.rs.
--   Recording/Requests and below: crates/moire-web/src/api/recording.rs, the requests and the turns
--     of a session's loop, as functions and as steps of the server. Requests/Json says what JSON text
--     is, to state what an export writes.
--   Capture and below: crates/moire-trace-capture/src/lib.rs, the walk over the frame pointers and
--     the assembly of a backtrace.
--   BTreeMap and below: `std::collections::BTreeMap` as an association list in key order.
--   Prelude and below: Boolean tests, lists, machine words, results.
--   Tests and below: runs at concrete inputs.
--
-- Bounds. Machine integers are native numbers with their wrap-around or saturation written out.
-- Loops are recursion on the list that they consume, but for three that run on fuel: the walk over
-- the frame pointers, where 2^64 units are enough because the addresses ascend, the read loop, where
-- one unit for each byte is enough because a message takes at least four, and the search for wait
-- chains, where the maximal depth is enough because each call has a longer path.
--
-- Parameters. The JSON serializer is the record `Json` of pairs of functions; a theorem that needs
-- it says for which values writing and reading back works. The floating-point operations of the
-- recorder are the record `Float`, and what the fingerprint of a body uses the record
-- `Fingerprint`. The serializer of messages is the record `Serializer`, and what the server's
-- steps call outside its state is the record `Outside`. The memory that the walk reads, the
-- results of `dladdr` and `resolve_source_path` are functions.
--
-- Not modelled: sockets, HTTP, SQLite itself, the lookup of symbols, the wrappers of tokio, macros,
-- the frontend; the JSON text of messages; locks, which make each method of the database one step.
pub mod Prelude
pub mod BTreeMap
pub mod Trace
pub mod Types
pub mod Wire
pub mod Server
pub mod Mcp
pub mod Runtime
pub mod Recording
pub mod Capture
pub mod Tests
