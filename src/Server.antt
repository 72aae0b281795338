-- ===== src/Server.antt =====
-- crates/moire-web/src/app: the state that the server's tasks share. Every field of the source is
-- here but the handles of other tasks: a connection's channel `tx` (an operation that sends returns
-- what it sends, with the connection) and the database handle (an operation that writes returns
-- what it writes). A `HashMap` is a map in key order. `R` is the type of the recording.
pub mod Handshake
pub mod Connections
pub mod Cuts
pub mod Snapshots
pub mod History
pub mod Table
pub mod Symbolication
pub mod Steps
use peeps.Prelude.{
  ℕ, ℤ, pos, ◌≤◌, Bool, false, Option, none, List, [], String, nat_ord, int_ord, ltb, ◌==◌, ◌||◌,
  if◌then◌else◌, Result, ok, err, saturating_add, decimal, concat,
}
use peeps.BTreeMap.{BTreeMap}
use peeps.Trace.{ModuleId, RuntimeBase, BacktraceId, js_safe_int_max_u64}
use peeps.Types.{ProcessId}
use peeps.Types.Change.{CutId, CutAck}
use peeps.Types.Snapshot.{ConnectionId}
use peeps.Wire.Messages.{SnapshotReply}

pub record StoredModuleManifestEntry : Type 0 where
  pub module_id : ModuleId
  pub module_path : String
  pub module_identity : String
  pub arch : String
  pub runtime_base : RuntimeBase

pub record ConnectedProcess : Type 0 where
  pub process_id : Option ProcessId
  pub process_name : String
  pub pid : ℕ
  pub handshake_received : Bool
  pub module_manifest : List StoredModuleManifestEntry

-- `BTreeSet<ConnectionId>`.
abbrev pub ConnectionSet : Type 0
ConnectionSet = BTreeMap ConnectionId (Unit {0})

pub record CutState : Type 0 where
  pub requested_at_ns : ℤ
  pub pending_conn_ids : ConnectionSet
  pub acks : BTreeMap ConnectionId CutAck

-- `notified` is the permit that `notify_one` stores in `notify`.
pub record SnapshotPending : Type 0 where
  pub pending_conn_ids : ConnectionSet
  pub replies : BTreeMap ConnectionId SnapshotReply
  pub notified : Bool

pub record SnapshotStreamState : Type 0 where
  pub backtrace_ids : List BacktraceId

-- The ordinals `CutOrdinal` and `SessionOrdinal` are numbers.
pub record ServerState (R : Type 0) : Type 0 where
  pub next_conn_id : ConnectionId
  pub next_cut_id : ℕ
  pub next_snapshot_id : ℤ
  pub next_session_id : ℕ
  pub connections : BTreeMap ConnectionId ConnectedProcess
  pub cuts : BTreeMap CutId CutState
  pub pending_snapshots : BTreeMap ℤ SnapshotPending
  pub snapshot_streams : BTreeMap ℤ SnapshotStreamState
  pub last_snapshot_json : Option String
  pub snapshot_history_ids : List ℤ
  pub snapshot_history_json : BTreeMap ℤ String
  pub recording : Option R

-- `ServerState::new`.
unfoldable pub new_state : (R : Type 0) → ConnectionId → ServerState R
new_state R next_conn_id = record {
  next_conn_id = next_conn_id;
  next_cut_id = 1;
  next_snapshot_id = pos 1;
  next_session_id = 1;
  connections = [];
  cuts = [];
  pending_snapshots = [];
  snapshot_streams = [];
  last_snapshot_json = none;
  snapshot_history_ids = [];
  snapshot_history_json = [];
  recording = none;
}

-- A failed assertion, an `expect` or an explicit `panic!`, which ends the task.
pub data Panic : Type 0 where
  connection_id_out_of_range : ℕ → Panic
  ordinal_out_of_range : ℕ → Panic
  reply_without_conn_info : ConnectionId → Panic
  timed_out_without_conn_info : ConnectionId → Panic

-- `ConnectionId::new`.
unfoldable pub new_connection_id : ℕ → Result Panic ConnectionId
new_connection_id id =
    if id == 0 || ltb js_safe_int_max_u64 id then err (connection_id_out_of_range id) else ok id

-- `ConnectionId::next`.
unfoldable pub next_connection_id : ConnectionId → Result Panic ConnectionId
unfolding new_connection_id
next_connection_id id = new_connection_id (saturating_add id 1)

-- `CutOrdinal::next` and `SessionOrdinal::next`.
unfoldable pub next_ordinal : ℕ → Result Panic ℕ
next_ordinal ordinal =
    let next = saturating_add ordinal 1 in
    if next == 0 || ltb js_safe_int_max_u64 next then err (ordinal_out_of_range next) else ok next

-- `CutId::from_ordinal` and `SessionId::from_ordinal`.
unfoldable pub to_cut_id : ℕ → CutId
unfolding decimal
to_cut_id ordinal = concat "cut:" (decimal ordinal)

unfoldable pub to_session_id : ℕ → String
unfolding decimal
to_session_id ordinal = concat "session:" (decimal ordinal)
