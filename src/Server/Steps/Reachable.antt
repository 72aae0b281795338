-- ===== src/Server/Steps/Reachable.antt =====
-- Every state that the server reaches is consistent.
use peeps.Prelude.{
  is_ok, is_some, ◌≡◌, Bool, true, false, List, String, Result, nat_ord, if◌then◌else◌, arith,
}
use peeps.BTreeMap.{contains_key}
use peeps.Trace.{BacktraceId, BacktraceRecord}
use peeps.Types.{ProcessId}
use peeps.Types.Change.{CutAck, PullChangesResponse}
use peeps.Types.Snapshot.{ConnectionId}
use peeps.Wire.Messages.{
  ClientMessage, handshake, backtrace_record, snapshot_reply, delta_batch, cut_ack, error,
  Handshake,
}
use peeps.Server.{ServerState}
use peeps.Server.Handshake.{validate_handshake, BacktraceFramePersist}
use peeps.Server.Connections.{process_id_of}
use peeps.Server.Connections.Messages.{
  on_handshake, on_delta_batch, on_cut_ack, store_record, record_from, on_backtrace_record,
  handle_message, set_process, ack_in,
}
use peeps.Server.Steps.{
  Outside, Step, Reach, connected, received, disconnected, cut_opened, snapshot_begun,
  snapshot_empty, snapshot_abandoned, snapshot_finished, cache_refreshed, recording_changed, start,
  later,
}
use peeps.Server.Steps.Invariant.{IsConsistent}
use peeps.Server.Steps.Preserved.{
  new_state-IsConsistent, register-IsConsistent, disconnect-IsConsistent, set_process-IsConsistent,
  reply_in-IsConsistent, ack_in-IsConsistent,
}
use peeps.Server.Steps.Preserved.Taking.{
  open_cut-IsConsistent, begin_snapshot-IsConsistent, finish_empty-IsConsistent,
  abandon_snapshot-IsConsistent, finish_snapshot-IsConsistent, refresh-IsConsistent,
}

module _ {R : Type 0} (s : ServerState R) (k : ConnectionId) where
  -- A batch and a backtrace record leave the state as it is.
  pub on_delta_batch-state : (batch : PullChangesResponse) → (on_delta_batch k batch s).state ≡ s
  unfolding on_delta_batch
  on_delta_batch-state batch = ground arith

  module _
      (insert_row : ProcessId → BacktraceId → List BacktraceFramePersist → Result String Bool) where
    pub on_backtrace_record-state :
        (r : BacktraceRecord) → (on_backtrace_record insert_row k r s).state ≡ s
    unfolding on_backtrace_record record_from store_record
    on_backtrace_record-state r = ground arith

  -- A handshake that is accepted, and an acknowledgement after a handshake, are stored.
  pub on_handshake-state :
      (h : Handshake)
      → (on_handshake k h s).state ≡ (if is_ok (validate_handshake h) then set_process k h s else s)
  unfolding on_handshake
  on_handshake-state h = ground arith

  pub on_cut_ack-state :
      (ack : CutAck)
      → (on_cut_ack k ack s).state ≡ (if is_some (process_id_of k s) then ack_in k ack s else s)
  unfolding on_cut_ack
  on_cut_ack-state ack = ground arith

branch :
    {R : Type 0} (b : Bool) {s t : ServerState R}
    → IsConsistent s
    → IsConsistent t
    → IsConsistent (if b then s else t)
branch true h k = h
branch false h k = k

module _ (out : Outside) {R : Type 0} where
  handle_message-IsConsistent :
      {s : ServerState R} (k : ConnectionId) (message : ClientMessage)
      → contains_key k s.connections ≡ true
      → IsConsistent s
      → IsConsistent (handle_message out.insert_row k message s).state
  unfolding handle_message
  handle_message-IsConsistent {s} k (handshake h) live inv =
      rw (on_handshake-state s k h) (branch _ (set_process-IsConsistent inv k h) inv)
  handle_message-IsConsistent {s} k (snapshot_reply reply) live inv =
      reply_in-IsConsistent inv k reply
  handle_message-IsConsistent {s} k (delta_batch batch) live inv =
      rw (on_delta_batch-state s k batch) inv
  handle_message-IsConsistent {s} k (cut_ack ack) live inv =
      rw (on_cut_ack-state s k ack) (branch _ (ack_in-IsConsistent inv k ack live) inv)
  handle_message-IsConsistent {s} k (error e) live inv = inv
  handle_message-IsConsistent {s} k (backtrace_record r) live inv =
      rw (on_backtrace_record-state s k out.insert_row r) inv

  -- Every step keeps the state consistent: the connections are in order and none has a number that
  -- is still to come; a cut waits for live connections only, was acknowledged by live connections
  -- only, and by none that it waits for; a snapshot waits only for connections that introduced
  -- their process, and its task is notified when it waits for none.
  pub Step-IsConsistent : {s t : ServerState R} → Step out s t → IsConsistent s → IsConsistent t
  Step-IsConsistent (connected conn_id t e) inv = register-IsConsistent inv conn_id t e
  Step-IsConsistent (received conn_id message live) inv =
      handle_message-IsConsistent conn_id message live inv
  Step-IsConsistent (disconnected conn_id) inv = disconnect-IsConsistent inv conn_id
  Step-IsConsistent (cut_opened now_ns cut_id t e) inv = open_cut-IsConsistent inv now_ns cut_id t e
  Step-IsConsistent snapshot_begun inv = begin_snapshot-IsConsistent inv
  Step-IsConsistent (snapshot_empty now_ms id) inv =
      finish_empty-IsConsistent inv out.to_string now_ms id
  Step-IsConsistent (snapshot_abandoned now_ms id) inv =
      abandon_snapshot-IsConsistent inv out.to_string now_ms id
  Step-IsConsistent (snapshot_finished now_ms id) inv =
      finish_snapshot-IsConsistent inv out.links out.load_table out.to_string now_ms id
  Step-IsConsistent (cache_refreshed id table) inv =
      refresh-IsConsistent inv out.to_string out.from_str id table
  Step-IsConsistent (recording_changed next_session_id recording) inv = record {
    ascending = inv.ascending;
    fresh = inv.fresh;
    cuts = inv.cuts;
    snapshots = inv.snapshots;
  }

  pub Reach-IsConsistent :
      {first : ConnectionId} {s : ServerState R} → Reach out first s → IsConsistent s
  Reach-IsConsistent {first} start = new_state-IsConsistent first
  Reach-IsConsistent (later r st) = Step-IsConsistent st (Reach-IsConsistent r)
