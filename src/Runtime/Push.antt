-- ===== src/Runtime/Push.antt =====
-- crates/moire-runtime/src/dashboard.rs: what a session writes, and in which order. A write that
-- fails ends the session, so that the server has a prefix of what is listed here.
pub mod Covered
pub mod Drained
use peeps.Runtime.Db.{RuntimeDb}
use peeps.Runtime.Log.Decode.{Json, pull_changes_since}
use peeps.BTreeMap.{values}
use peeps.Prelude.{
  ℤ, ℕ, ◌≤◌, Bool, true, false, Option, none, some, List, [], ◌∷◌, ◌++◌, String, map, max, ltb,
  ◌==◌, ◌||◌, not, if◌then◌else◌, u64_max, Result, ok, err, ◌>>=◌,
}
use peeps.Trace.{BacktraceId, BacktraceRecord}
use peeps.Types.{ProcessId, PTime}
use peeps.Types.Change.{SeqNo, StreamId, PullChangesResponse, CutId, CutAck}
use peeps.Capture.{CapturedBacktrace}
use peeps.Wire.Messages.{
  ClientMessage, ServerMessage, Handshake, ModuleManifestEntry, handshake, backtrace_record,
  delta_batch, cut_ack, snapshot_reply, SnapshotReply, cut_request, snapshot_request,
}
use peeps.Runtime.Modules.{
  Registry, Records, RegistryPanic, module_manifest_snapshot, backtrace_records_after,
  remap_and_register_backtrace, remember_backtrace_record,
}

abbrev pub dashboard_push_max_changes : ℕ
dashboard_push_max_changes = 2048

-- What the statics of the process hold, as far as a session reads them.
pub record Process : Type 0 where
  pub registry : Registry
  pub records : Records

-- `capture_backtrace_id` after the capture.
unfoldable pub remember_capture :
    ℕ → String → CapturedBacktrace → Process → Result RegistryPanic Process
remember_capture prefix arch captured p = do
  remapped ← remap_and_register_backtrace prefix arch captured p.registry
  records ← remember_backtrace_record remapped.0 p.records
  ok (record { registry = remapped.1; records = records })

-- What a handshake says but the modules.
pub record Identity : Type 0 where
  pub process_id : ProcessId
  pub process_name : String
  pub pid : ℕ
  pub args : List String
  pub env : List String

-- The variables of `run_dashboard_session`.
pub record Session : Type 0 where
  pub last_sent_manifest_revision : ℕ
  pub last_sent_backtrace_id : Option BacktraceId
  pub cursor : SeqNo

abbrev pub handshake_with : Identity → List ModuleManifestEntry → ClientMessage
handshake_with me module_manifest = handshake (record {
  process_id = me.process_id;
  process_name = me.process_name;
  pid = me.pid;
  args = me.args;
  env = me.env;
  module_manifest = module_manifest;
})

-- The last identifier of the records sent.
abbrev pub last_id : Option BacktraceId → List BacktraceRecord → Option BacktraceId
last_id last [] = last
last_id last (r ∷ rs) = last_id (some r.id) rs

-- `current_cursor` and `ack_cut`, the lock being available.
unfoldable pub ack_cut : RuntimeDb → CutId → CutAck
ack_cut db cut_id = record {
  cut_id = cut_id;
  cursor = record { stream_id = db.stream_id; next_seq_no = db.log.next_seq_no };
}

-- What `encode_snapshot_reply_frame` encodes, the lock being available.
unfoldable pub snapshot_reply_of : RuntimeDb → PTime → ℤ → SnapshotReply
snapshot_reply_of db now snapshot_id = record {
  snapshot_id = snapshot_id;
  ptime_now_ms = now;
  snapshot = some (record {
    entities = values db.entities;
    scopes = values db.scopes;
    edges = values db.edges;
    events = db.events;
  });
}

abbrev pub is_nil : {A : Type 0} → List A → Bool
is_nil [] = true
is_nil (a ∷ l) = false

-- A flush takes the records under one lock and the modules under a second one, and other threads
-- may capture between the two: `recorded` is what the first lock finds, `registry` what the second
-- does.
module _ (me : Identity) (registry : Registry) where
  -- The session after, and the messages written.
  unfoldable pub send_handshake_if_manifest_changed : Session → Session × List ClientMessage
  send_handshake_if_manifest_changed s =
      let (revision, module_manifest) = module_manifest_snapshot registry in
      if revision == s.last_sent_manifest_revision then (s, []) else (
        record s { last_sent_manifest_revision = revision },
        handshake_with me module_manifest ∷ [],
      )

  unfoldable pub flush_backtrace_records : Records → Session → Session × List ClientMessage
  unfolding send_handshake_if_manifest_changed
  flush_backtrace_records recorded s =
      let records = backtrace_records_after s.last_sent_backtrace_id recorded in
      let (greeted, greeting) = send_handshake_if_manifest_changed s in
      (
        record greeted { last_sent_backtrace_id = last_id greeted.last_sent_backtrace_id records },
        greeting ++ map backtrace_record records,
      )

  -- The start of a session, after the protocol magic.
  unfoldable pub start_session : Session × List ClientMessage
  unfolding send_handshake_if_manifest_changed
  start_session =
      send_handshake_if_manifest_changed (record {
        last_sent_manifest_revision = u64_max;
        last_sent_backtrace_id = none;
        cursor = 0;
      })

  -- A tick of the interval.
  unfoldable pub tick : Records → Json → RuntimeDb → Session → Session × List ClientMessage
  unfolding flush_backtrace_records
  tick recorded json db s =
      let batch = pull_changes_since json db.stream_id db.log s.cursor dashboard_push_max_changes in
      let cursor_shifted = ltb s.cursor batch.from_seq_no || ltb s.cursor batch.next_seq_no in
      let (flushed, written) = flush_backtrace_records recorded s in
      if not (is_nil batch.changes) || batch.truncated || cursor_shifted
      then (
        record flushed { cursor = max batch.next_seq_no s.cursor },
        written ++ delta_batch batch ∷ [],
      )
      else (record s { cursor = max batch.next_seq_no s.cursor }, [])

  -- A message of the server, answered at a time of the process's clock.
  unfoldable pub answer :
      Records → RuntimeDb → PTime → ServerMessage → Session → Session × List ClientMessage
  unfolding flush_backtrace_records ack_cut snapshot_reply_of
  answer recorded db now (cut_request request) s =
      let (flushed, written) = flush_backtrace_records recorded s in
      (flushed, written ++ cut_ack (ack_cut db request.cut_id) ∷ [])
  answer recorded db now (snapshot_request request) s =
      let (flushed, written) = flush_backtrace_records recorded s in
      (flushed, written ++ snapshot_reply (snapshot_reply_of db now request.snapshot_id) ∷ [])
