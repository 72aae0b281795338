-- ===== src/Server/Steps.antt =====
-- crates/moire-web/src: the tasks of the server as steps on the state that they share. A step is
-- what one task does under one lock; between two steps of a task any steps of others may come.
pub mod Invariant
pub mod Fits
pub mod Preserved
pub mod Reachable
pub mod Safety
pub mod Liveness
use peeps.Prelude.{ℕ, ℤ, ◌≡◌, Bool, true, Option, List, String, Result, ok, nat_ord, int_ord}
use peeps.BTreeMap.{contains_key}
use peeps.Trace.{BacktraceId}
use peeps.Types.{ProcessId}
use peeps.Types.Change.{CutId}
use peeps.Types.Snapshot.{ConnectionId, ScopeEntityLink, SnapshotCutResponse}
use peeps.Wire.Messages.{ClientMessage}
use peeps.Server.{ServerState, new_state}
use peeps.Server.Handshake.{BacktraceFramePersist}
use peeps.Server.Connections.{register, disconnect}
use peeps.Server.Connections.Messages.{handle_message}
use peeps.Server.Cuts.{open_cut}
use peeps.Server.Snapshots.{SnapshotBacktraceTable}
use peeps.Server.Snapshots.Taking.{
  begin_snapshot, finish_empty, abandon_snapshot, finish_snapshot,
  refresh_cached_snapshot_from_table,
}

-- What the server calls outside its own state: the database and the serializer.
pub record Outside : Type 0 where
  pub insert_row : ProcessId → BacktraceId → List BacktraceFramePersist → Result String Bool
  pub links : ProcessId → List ScopeEntityLink
  pub load_table : List BacktraceId → SnapshotBacktraceTable
  pub to_string : SnapshotCutResponse → Option String
  pub from_str : String → Option SnapshotCutResponse

module _ (out : Outside) {R : Type 0} where
  pub data Step (s : ServerState R) : ServerState R → Type 0 where
    connected :
        (conn_id : ConnectionId) (t : ServerState R) → register s ≡ ok (conn_id, t) → Step s t
    received :
        (conn_id : ConnectionId) (message : ClientMessage)
        → contains_key conn_id s.connections ≡ true
        → Step s (handle_message out.insert_row conn_id message s).state
    disconnected : (conn_id : ConnectionId) → Step s (disconnect conn_id s)
    cut_opened :
        (now_ns : ℤ) (cut_id : CutId) (t : ServerState R)
        → open_cut now_ns s ≡ ok (cut_id, t)
        → Step s t
    snapshot_begun : Step s (begin_snapshot s).2
    snapshot_empty : (now_ms id : ℤ) → Step s (finish_empty out.to_string now_ms id s).0
    snapshot_abandoned : (now_ms id : ℤ) → Step s (abandon_snapshot out.to_string now_ms id s).0
    snapshot_finished :
        (now_ms id : ℤ)
        → Step s (finish_snapshot out.links out.load_table out.to_string now_ms id s).0
    cache_refreshed :
        (id : ℤ) (table : SnapshotBacktraceTable)
        → Step s (refresh_cached_snapshot_from_table out.to_string out.from_str id table s)
    recording_changed :
        (next_session_id : ℕ) (recording : Option R)
        → Step s (record s { next_session_id = next_session_id; recording = recording })

  -- The states that the server reaches from its start, with a first connection number.
  pub data Reach (first : ConnectionId) : ServerState R → Type 0 where
    start : Reach first (new_state R first)
    later : {s t : ServerState R} → Reach first s → Step s t → Reach first t
