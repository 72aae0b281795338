-- ===== src/Server/Connections/Messages.antt =====
-- crates/moire-web/src/tcp/mod.rs `read_messages`: what a message does to the shared state and what
-- it writes to the database. Each handler is what happens under one lock, or under two that no other
-- step of the same connection comes between. Log lines are left out.
use peeps.Prelude.{
  ℕ, Bool, true, none, some, List, [], ◌∷◌, String, nat_ord, int_ord, string_ord, ◌||◌, not,
  if◌then◌else◌, Result, ok, err, ◌>>=◌, map_err,
}
use peeps.BTreeMap.{get, insert, remove}
use peeps.Trace.{BacktraceId, BacktraceRecord}
use peeps.Types.{ProcessId}
use peeps.Types.Change.{CutId, CutAck, PullChangesResponse, StreamId, SeqNo}
use peeps.Types.Snapshot.{ConnectionId}
use peeps.Wire.Messages.{
  ClientMessage, handshake, backtrace_record, snapshot_reply, delta_batch, cut_ack, error,
  Handshake, SnapshotReply,
}
use peeps.Server.{
  ServerState, ConnectedProcess, CutState, SnapshotPending, StoredModuleManifestEntry,
}
use peeps.Server.Handshake.{
  HandshakeError, FrameError, BacktraceFramePersist, validate_handshake,
  into_stored_module_manifest, backtrace_frames_for_store,
}
use peeps.Server.Connections.{is_empty, process_id_of}

-- The calls of crates/moire-web/src/db/persist.rs. An error of the first six is only logged.
pub data DbCall : Type 0 where
  persist_connection_closed : ConnectionId → DbCall
  persist_connection_upsert : ConnectionId → ProcessId → String → ℕ → DbCall
  persist_connection_module_manifest : ProcessId → List StoredModuleManifestEntry → DbCall
  persist_delta_batch : ProcessId → PullChangesResponse → DbCall
  persist_cut_ack : CutId → ProcessId → StreamId → SeqNo → DbCall
  persist_backtrace_record : ProcessId → BacktraceId → List BacktraceFramePersist → DbCall

-- Why a message ends its connection.
pub data MessageError : Type 0 where
  reject_handshake : HandshakeError → MessageError
  unknown_connection : ConnectionId → BacktraceId → MessageError
  before_handshake : BacktraceId → ConnectionId → MessageError
  before_process_id : BacktraceId → ConnectionId → MessageError
  frames_not_stored : FrameError → MessageError
  not_persisted : String → MessageError

-- The state after a message, what is written to the database, and how the message ends.
pub record Handled (R : Type 0) : Type 0 where
  pub state : ServerState R
  pub calls : List DbCall
  pub outcome : Result MessageError (Unit {0})

unfoldable pub introduce : Handshake → ConnectedProcess → ConnectedProcess
introduce h conn = record {
  process_id = some h.process_id;
  process_name = h.process_name;
  pid = h.pid;
  handshake_received = true;
  module_manifest = into_stored_module_manifest h.module_manifest;
}

abbrev pub accept_reply : ConnectionId → SnapshotReply → SnapshotPending → SnapshotPending
accept_reply conn_id reply pending =
    let remaining = remove conn_id pending.pending_conn_ids in
    record {
      pending_conn_ids = remaining;
      replies = insert conn_id reply pending.replies;
      notified = pending.notified || is_empty remaining;
    }

abbrev pub accept_ack : ConnectionId → CutAck → CutState → CutState
accept_ack conn_id ack cut = record cut {
  pending_conn_ids = remove conn_id cut.pending_conn_ids;
  acks = insert conn_id ack cut.acks;
}

module _ {R : Type 0} where
  -- `continue`, or the end of the branch.
  abbrev pub goes_on : ServerState R → List DbCall → Handled R
  goes_on s calls = record { state = s; calls = calls; outcome = ok tt }

  abbrev pub fails : ServerState R → MessageError → Handled R
  fails s e = record { state = s; calls = []; outcome = err e }

  unfoldable pub set_process : ConnectionId → Handshake → ServerState R → ServerState R
  unfolding introduce
  set_process conn_id h s = elim (get conn_id s.connections) [
    | none ↦ s
    | some conn ↦ record s { connections = insert conn_id (introduce h conn) s.connections }
  ]

  unfoldable pub on_handshake : ConnectionId → Handshake → ServerState R → Handled R
  unfolding set_process
  on_handshake conn_id h s = elim (validate_handshake h) [
    | err e ↦ fails s (reject_handshake e)
    | ok u ↦ goes_on (set_process conn_id h s) (
        persist_connection_upsert conn_id h.process_id h.process_name h.pid
        ∷ persist_connection_module_manifest h.process_id
            (into_stored_module_manifest h.module_manifest)
        ∷ [])
  ]

  unfoldable pub reply_in : ConnectionId → SnapshotReply → ServerState R → ServerState R
  reply_in conn_id reply s = elim (get reply.snapshot_id s.pending_snapshots) [
    | none ↦ s
    | some pending ↦ record s {
      pending_snapshots =
          insert reply.snapshot_id (accept_reply conn_id reply pending) s.pending_snapshots;
    }
  ]

  unfoldable pub ack_in : ConnectionId → CutAck → ServerState R → ServerState R
  ack_in conn_id ack s = elim (get ack.cut_id s.cuts) [
    | none ↦ s
    | some cut ↦ record s { cuts = insert ack.cut_id (accept_ack conn_id ack cut) s.cuts }
  ]

  unfoldable pub on_delta_batch : ConnectionId → PullChangesResponse → ServerState R → Handled R
  on_delta_batch conn_id batch s = elim (process_id_of conn_id s) [
    | none ↦ goes_on s []
    | some process_id ↦ goes_on s (persist_delta_batch process_id batch ∷ [])
  ]

  unfoldable pub on_cut_ack : ConnectionId → CutAck → ServerState R → Handled R
  unfolding ack_in
  on_cut_ack conn_id ack s = elim (process_id_of conn_id s) [
    | none ↦ goes_on s []
    | some process_id ↦
        goes_on (ack_in conn_id ack s)
          (persist_cut_ack ack.cut_id process_id ack.cursor.stream_id ack.cursor.next_seq_no ∷ [])
  ]

  -- `insert_row` is the database's answer to `persist_backtrace_record`: whether it was new.
  module _
      (insert_row : ProcessId → BacktraceId → List BacktraceFramePersist → Result String Bool) where
    unfoldable pub store_record :
        ProcessId → List StoredModuleManifestEntry → BacktraceRecord → ServerState R → Handled R
    store_record process_id manifest r s = elim (backtrace_frames_for_store manifest r) [
      | err e ↦ fails s (frames_not_stored e)
      | ok frames ↦ record {
        state = s;
        calls = persist_backtrace_record process_id r.id frames ∷ [];
        outcome = map_err not_persisted (insert_row process_id r.id frames) >>= λ inserted. ok tt;
      }
    ]

    unfoldable pub record_from :
        ConnectionId → ConnectedProcess → BacktraceRecord → ServerState R → Handled R
    unfolding store_record
    record_from conn_id conn r s =
        if not conn.handshake_received
        then fails s (before_handshake r.id conn_id)
        else elim conn.process_id [
          | none ↦ fails s (before_process_id r.id conn_id)
          | some process_id ↦ store_record process_id conn.module_manifest r s
        ]

    unfoldable pub on_backtrace_record : ConnectionId → BacktraceRecord → ServerState R → Handled R
    unfolding record_from
    on_backtrace_record conn_id r s = elim (get conn_id s.connections) [
      | none ↦ fails s (unknown_connection conn_id r.id)
      | some conn ↦ record_from conn_id conn r s
    ]

    -- One round of `read_messages`, after decoding.
    unfoldable pub handle_message : ConnectionId → ClientMessage → ServerState R → Handled R
    unfolding on_handshake reply_in on_delta_batch on_cut_ack on_backtrace_record
    handle_message conn_id (handshake h) s = on_handshake conn_id h s
    handle_message conn_id (snapshot_reply reply) s = goes_on (reply_in conn_id reply s) []
    handle_message conn_id (delta_batch batch) s = on_delta_batch conn_id batch s
    handle_message conn_id (cut_ack ack) s = on_cut_ack conn_id ack s
    handle_message conn_id (error e) s = goes_on s []
    handle_message conn_id (backtrace_record r) s = on_backtrace_record conn_id r s
