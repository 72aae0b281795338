-- ===== src/Server/Snapshots.antt =====
-- crates/moire-web/src/api/snapshot.rs `take_snapshot_internal`: the request to every process, and the
-- assembly of what came back. `collect_snapshot_backtrace_ids` is in
-- crates/moire-web/src/snapshot/table.rs.
pub mod Taking
pub mod Assembly
use peeps.Prelude.{
  ℕ, ℤ, false, Option, none, some, List, [], ◌∷◌, ◌++◌, map, String, nat_ord, int_ord, Result, ok,
  err, ◌>>=◌, succ_i64, sort_by, dedup,
}
use Prim.Native.Nat.{compare}
use peeps.BTreeMap.{BTreeMap, get, insert, remove}
use peeps.BTreeMap.Values.{filter_map_values}
use peeps.Trace.{BacktraceId}
use peeps.Types.{ProcessId, Entity, Scope, Edge, Event}
use peeps.Types.Snapshot.{
  ConnectionId, Snapshot, ScopeEntityLink, ProcessSnapshotView, TimedOutProcess, SnapshotBacktrace,
  SnapshotFrameRecord, SnapshotCutResponse,
}
use peeps.Wire.Messages.{SnapshotReply}
use peeps.Server.{
  ServerState, ConnectedProcess, SnapshotPending, Panic, reply_without_conn_info,
  timed_out_without_conn_info, ConnectionSet,
}
use peeps.Server.Cuts.{connection_ids}
use peeps.Server.History.{remember_snapshot}

-- `SnapshotBacktraceTable`.
pub record SnapshotBacktraceTable : Type 0 where
  pub backtraces : List SnapshotBacktrace
  pub frames : List SnapshotFrameRecord

-- A process as its handshake describes it.
pub record ConnInfo : Type 0 where
  pub process_id : ProcessId
  pub process_name : String
  pub pid : ℕ

abbrev pub with_process_id : ConnectedProcess → Option ProcessId → Option ConnInfo
with_process_id conn none = none
with_process_id conn (some process_id) =
    some (record { process_id = process_id; process_name = conn.process_name; pid = conn.pid })

abbrev pub conn_info_of : ConnectedProcess → Option ConnInfo
conn_info_of conn = with_process_id conn conn.process_id

unfoldable pub backtraces_of : Snapshot → List BacktraceId
backtraces_of s =
    map (λ (e : Entity). e.backtrace) s.entities
    ++ (map (λ (e : Scope). e.backtrace) s.scopes
        ++ (map (λ (e : Edge). e.backtrace) s.edges ++ map (λ (e : Event). e.backtrace) s.events))

unfoldable pub all_backtraces : List ProcessSnapshotView → List BacktraceId
unfolding backtraces_of
all_backtraces [] = []
all_backtraces (p ∷ ps) = backtraces_of p.snapshot ++ all_backtraces ps

unfoldable pub collect_snapshot_backtrace_ids : SnapshotCutResponse → List BacktraceId
unfolding all_backtraces
collect_snapshot_backtrace_ids snapshot =
    dedup (sort_by compare (all_backtraces snapshot.processes))

abbrev pub empty_response : ℤ → ℤ → SnapshotCutResponse
empty_response snapshot_id now_ms = record {
  snapshot_id = snapshot_id;
  captured_at_unix_ms = now_ms;
  processes = [];
  timed_out_processes = [];
  backtraces = [];
  frames = [];
}

-- `links` reads the scope links of a process from the database, none on an error.
module _ (links : ProcessId → List ScopeEntityLink)
    (conn_info : BTreeMap ConnectionId ConnInfo) where
  abbrev pub view_of : SnapshotReply → ConnInfo → Snapshot → ProcessSnapshotView
  view_of reply info snapshot = record {
    process_id = info.process_id;
    process_name = info.process_name;
    pid = info.pid;
    ptime_now_ms = reply.ptime_now_ms;
    snapshot = snapshot;
    scope_entity_links = links info.process_id;
  }

  -- The replies that hold a snapshot; the `panic!` stands in the closure of the `filter_map`.
  unfoldable pub views :
      BTreeMap ConnectionId SnapshotReply → Result Panic (List ProcessSnapshotView)
  views [] = ok []
  views ((conn_id, reply) ∷ replies) =
      let rest = views replies in
      elim reply.snapshot [
        | none ↦ rest
        | some snapshot ↦ elim (get conn_id conn_info) [
          | none ↦ err (reply_without_conn_info conn_id)
          | some info ↦ rest >>= λ ps. ok (view_of reply info snapshot ∷ ps)
        ]
      ]

  abbrev pub timed_out_of : ConnInfo → TimedOutProcess
  timed_out_of info = record {
    process_id = info.process_id;
    process_name = info.process_name;
    pid = info.pid;
  }

  unfoldable pub timed_out : ConnectionSet → Result Panic (List TimedOutProcess)
  timed_out [] = ok []
  timed_out ((conn_id, u) ∷ conns) =
      let rest = timed_out conns in
      elim (get conn_id conn_info) [
        | none ↦ err (timed_out_without_conn_info conn_id)
        | some info ↦ rest >>= λ ps. ok (timed_out_of info ∷ ps)
      ]

  -- The processes that replied and those that timed out.
  unfoldable pub assemble :
      Option SnapshotPending → Result Panic (List ProcessSnapshotView × List TimedOutProcess)
  unfolding views timed_out
  assemble none = ok ([], [])
  assemble (some p) = do
    processes ← views p.replies
    timed_out_processes ← timed_out p.pending_conn_ids
    ok (processes, timed_out_processes)
