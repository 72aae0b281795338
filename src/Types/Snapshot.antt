-- ===== src/Types/Snapshot.antt =====
-- crates/moire-types/src/snapshots.rs and api.rs: snapshots and what the server answers.
use peeps.Prelude.{ℕ, ℤ, Bool, Option, List, String}
use peeps.Trace.{BacktraceId, FrameId, RelPc}
use peeps.Types.{Entity, Scope, Edge, Event, ProcessId}
use peeps.Types.Change.{CutId}

pub record Snapshot : Type 0 where
  pub entities : List Entity
  pub scopes : List Scope
  pub edges : List Edge
  pub events : List Event

-- A number in 1..=JS_SAFE_INT_MAX.
abbrev pub ConnectionId : Type 0
ConnectionId = ℕ

pub record ConnectedProcessInfo : Type 0 where
  pub conn_id : ConnectionId
  pub process_id : ProcessId
  pub process_name : String
  pub pid : ℕ

pub record ConnectionsResponse : Type 0 where
  pub connected_processes : ℕ
  pub processes : List ConnectedProcessInfo

pub record TriggerCutResponse : Type 0 where
  pub cut_id : CutId
  pub requested_at_ns : ℤ
  pub requested_connections : ℕ

pub record CutStatusResponse : Type 0 where
  pub cut_id : CutId
  pub requested_at_ns : ℤ
  pub pending_connections : ℕ
  pub acked_connections : ℕ
  pub pending_conn_ids : List ConnectionId

pub record BacktraceFrameResolved : Type 0 where
  pub module_path : String
  pub function_name : String
  pub source_file : String
  pub line : Option ℕ

pub record BacktraceFrameUnresolved : Type 0 where
  pub module_path : String
  pub rel_pc : RelPc
  pub reason : String

pub data SnapshotBacktraceFrame : Type 0 where
  resolved : BacktraceFrameResolved → SnapshotBacktraceFrame
  unresolved : BacktraceFrameUnresolved → SnapshotBacktraceFrame

pub record SnapshotBacktrace : Type 0 where
  pub backtrace_id : BacktraceId
  pub frame_ids : List FrameId

pub record SnapshotFrameRecord : Type 0 where
  pub frame_id : FrameId
  pub frame : SnapshotBacktraceFrame

pub record ScopeEntityLink : Type 0 where
  pub scope_id : String
  pub entity_id : String

pub record ProcessSnapshotView : Type 0 where
  pub process_id : ProcessId
  pub process_name : String
  pub pid : ℕ
  pub ptime_now_ms : ℕ
  pub snapshot : Snapshot
  pub scope_entity_links : List ScopeEntityLink

pub record TimedOutProcess : Type 0 where
  pub process_id : ProcessId
  pub process_name : String
  pub pid : ℕ

pub record SnapshotCutResponse : Type 0 where
  pub snapshot_id : ℤ
  pub captured_at_unix_ms : ℤ
  pub processes : List ProcessSnapshotView
  pub timed_out_processes : List TimedOutProcess
  pub backtraces : List SnapshotBacktrace
  pub frames : List SnapshotFrameRecord

pub record SnapshotSymbolicationUpdate : Type 0 where
  pub snapshot_id : ℤ
  pub total_frames : ℕ
  pub completed_frames : ℕ
  pub done : Bool
  pub updated_frames : List SnapshotFrameRecord
