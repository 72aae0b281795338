-- ===== src/Server/Snapshots/Taking.antt =====
-- crates/moire-web/src/api/snapshot.rs `take_snapshot_internal` and
-- `refresh_cached_snapshot_from_table`: what they do to the shared state.
use peeps.Prelude.{
  err, not, if◌then◌else◌, eqb, ℤ, false, Option, none, some, List, [], ◌∷◌, String, nat_ord,
  int_ord, Result, ok, err, succ_i64,
}
use peeps.BTreeMap.{BTreeMap, get, insert, remove}
use peeps.BTreeMap.Values.{filter_map_values}
use peeps.Trace.{BacktraceId}
use peeps.Types.{ProcessId}
use peeps.Types.Snapshot.{
  ProcessSnapshotView, TimedOutProcess, ConnectionId, ScopeEntityLink, SnapshotCutResponse,
}
use peeps.Server.{ServerState, ConnectedProcess, SnapshotPending, Panic}
use peeps.Server.Cuts.{connection_ids}
use peeps.Server.History.{remember_snapshot}
use peeps.BTreeMap.Ascending.{and_then}
use peeps.Server.Snapshots.{
  SnapshotBacktraceTable, ConnInfo, conn_info_of, collect_snapshot_backtrace_ids, empty_response,
  assemble,
}

abbrev pub add_pending :
    ℤ → BTreeMap ConnectionId ProcessId → BTreeMap ℤ SnapshotPending → BTreeMap ℤ SnapshotPending
add_pending id [] pending = pending
add_pending id (tx ∷ txs) pending =
    insert id
      (record { pending_conn_ids = connection_ids (tx ∷ txs); replies = []; notified = false })
      pending

module _ {R : Type 0} where
  -- The connections that a snapshot asks, with their processes.
  abbrev pub identified : ServerState R → BTreeMap ConnectionId ProcessId
  identified s = filter_map_values (λ (conn : ConnectedProcess). conn.process_id) s.connections

  -- The first lock: the snapshot's number, the connections to ask, the state.
  unfoldable pub begin_snapshot :
      ServerState R → ℤ × BTreeMap ConnectionId ProcessId × ServerState R
  begin_snapshot s = (
    s.next_snapshot_id,
    identified s,
    record s {
      next_snapshot_id = succ_i64 s.next_snapshot_id;
      pending_snapshots = add_pending s.next_snapshot_id (identified s) s.pending_snapshots;
    },
  )

  unfoldable pub add_stream : ℤ → List BacktraceId → ServerState R → ServerState R
  add_stream id backtrace_ids s = record s {
    snapshot_streams = insert id (record { backtrace_ids = backtrace_ids }) s.snapshot_streams;
  }

  -- The end with nobody to ask.
  unfoldable pub finish_empty :
      (SnapshotCutResponse → Option String)
      → ℤ
      → ℤ
      → ServerState R
      → ServerState R × SnapshotCutResponse
  unfolding add_stream
  finish_empty to_string now_ms id s =
      let response = empty_response id now_ms in
      (remember_snapshot to_string response (add_stream id [] s), response)

  -- The lock after the wait, which takes the replies.
  abbrev pub take_pending : ℤ → ServerState R → ServerState R
  take_pending id s = record s { pending_snapshots = remove id s.pending_snapshots }

  -- The end after a request that does not encode.
  unfoldable pub abandon_snapshot :
      (SnapshotCutResponse → Option String)
      → ℤ
      → ℤ
      → ServerState R
      → ServerState R × SnapshotCutResponse
  unfolding finish_empty
  abandon_snapshot to_string now_ms id s = finish_empty to_string now_ms id (take_pending id s)

  abbrev pub conn_infos : ServerState R → BTreeMap ConnectionId ConnInfo
  conn_infos s = filter_map_values conn_info_of s.connections

  -- What follows the assembly, in one step: the later locks touch only the history and the streams.
  -- `load_table` is `load_snapshot_backtrace_table` on the database.
  unfoldable pub complete_snapshot :
      (List BacktraceId → SnapshotBacktraceTable)
      → (SnapshotCutResponse → Option String)
      → ℤ
      → ℤ
      → List ProcessSnapshotView × List TimedOutProcess
      → ServerState R
      → ServerState R × SnapshotCutResponse
  unfolding add_stream collect_snapshot_backtrace_ids
  complete_snapshot load_table to_string now_ms id parts s =
      let assembled : SnapshotCutResponse = record (empty_response id now_ms) {
        processes = parts.0;
        timed_out_processes = parts.1;
      } in
      let ids = collect_snapshot_backtrace_ids assembled in
      let table = load_table ids in
      let response : SnapshotCutResponse = record assembled {
        backtraces = table.backtraces;
        frames = table.frames;
      } in
      (remember_snapshot to_string response (add_stream id ids s), response)

  -- All that follows the wait.
  unfoldable pub finish_snapshot :
      (ProcessId → List ScopeEntityLink)
      → (List BacktraceId → SnapshotBacktraceTable)
      → (SnapshotCutResponse → Option String)
      → ℤ
      → ℤ
      → ServerState R
      → ServerState R × Result Panic SnapshotCutResponse
  unfolding assemble complete_snapshot
  finish_snapshot links load_table to_string now_ms id s =
      elim (assemble links (conn_infos s) (get id s.pending_snapshots)) [
        | err e ↦ (take_pending id s, err e)
        | ok parts ↦
            let (done, response) =
              complete_snapshot load_table to_string now_ms id parts (take_pending id s) in
            (done, ok response)
      ]

  -- `refresh_cached_snapshot_from_table`; `from_str` reads the JSON of a snapshot.
  unfoldable pub refresh_cached_snapshot_from_table :
      (SnapshotCutResponse → Option String)
      → (String → Option SnapshotCutResponse)
      → ℤ
      → SnapshotBacktraceTable
      → ServerState R
      → ServerState R
  refresh_cached_snapshot_from_table to_string from_str id table s =
      elim (and_then from_str s.last_snapshot_json) [
        | none ↦ s
        | some cached ↦
            if not (eqb cached.snapshot_id id)
            then s
            else remember_snapshot to_string
                (record cached { backtraces = table.backtraces; frames = table.frames }) s
      ]
