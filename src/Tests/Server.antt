-- ===== src/Tests/Server.antt =====
-- The server's shared state at concrete inputs.
use peeps.Prelude.{
  ℕ, pos, ◌≡◌, ◌↔◌, refl, true, false, none, some, List, [], ◌∷◌, ok, err, nat_ord, int_ord, arith,
  All, is_blank, is_absolute, hexadecimal,
}
use peeps.BTreeMap.{get, contains_key, insert, remove, retain}
use peeps.BTreeMap.Values.{map_values, filter_map_values}
use peeps.Trace.{BacktraceRecord}
use peeps.Types.Snapshot.{ConnectionId, Snapshot}
use peeps.Wire.Messages.{
  Handshake, SnapshotReply, handshake, snapshot_reply, ModuleManifestEntry, build_id,
}
use peeps.Server.{
  next_connection_id, ServerState, new_state, SnapshotPending, reply_without_conn_info,
  StoredModuleManifestEntry,
}
use peeps.Server.Handshake.{validate_handshake, BacktraceFramePersist, backtrace_frames_for_store}
use peeps.Server.Handshake.Frames.{AreRows, backtrace_frames_for_store-AreRows}
use peeps.Server.Handshake.Validation.{IsUsable, validate_handshake_iff}
use peeps.Server.Connections.{register, disconnect, is_empty}
use peeps.Server.Connections.Messages.{handle_message}
use peeps.Server.History.{contains_id, store_snapshot, snapshot_history_limit}
use peeps.Server.History.Bounds.{IsHistory, store_snapshot-IsHistory}
use peeps.Server.Snapshots.Taking.{begin_snapshot, finish_snapshot}
use peeps.Server.Steps.{Outside, Reach, connected, received, snapshot_begun, start, later}
use peeps.Server.Steps.Invariant.{IsConsistent}
use peeps.Server.Steps.Reachable.{Reach-IsConsistent, Step-IsConsistent}
use peeps.Server.Steps.Safety.{disconnect-finish_snapshot}
use peeps.Server.Steps.Liveness.{answered, closes, apply_answers, apply_answers-notified}

abbrev module_entry : ModuleManifestEntry
module_entry = record {
  module_id = 3;
  module_path = "/app";
  runtime_base = 4096;
  identity = build_id "b1";
  arch = "x86_64";
}

abbrev hello : Handshake
hello = record {
  process_id = "p1";
  process_name = "app";
  pid = 7;
  args = [];
  env = [];
  module_manifest = module_entry ∷ [];
}

abbrev nothing_seen : Snapshot
nothing_seen = record { entities = []; scopes = []; edges = []; events = [] }

abbrev answer : SnapshotReply
answer = record { snapshot_id = pos 1; ptime_now_ms = 12; snapshot = some nothing_seen }

abbrev outside : Outside
outside = record {
  insert_row = λ p b frames. ok true;
  links = λ p. [];
  load_table = λ ids. record { backtraces = []; frames = [] };
  to_string = λ response. some "{}";
  from_str = λ text. none;
}

abbrev first_state : ServerState ℕ
first_state = new_state ℕ 1

-- One connection, then its handshake, then a request for a snapshot, then its reply.
abbrev one_connection : ServerState ℕ
one_connection = record first_state {
  next_conn_id = 2;
  connections =
      (
        1,
        record {
          process_id = none;
          process_name = "unknown-CONNECTION#1";
          pid = 0;
          handshake_received = false;
          module_manifest = [];
        },
      )
      ∷ [];
}

abbrev introduced : ServerState ℕ
introduced = (handle_message outside.insert_row 1 (handshake hello) one_connection).state

abbrev asked : ServerState ℕ
asked = (begin_snapshot introduced).2

abbrev replied : ServerState ℕ
replied = (handle_message outside.insert_row 1 (snapshot_reply answer) asked).state

register_first : register first_state ≡ ok (1, one_connection)
unfolding register new_state next_connection_id insert hexadecimal
register_first = refl

Reach-one : Reach outside 1 one_connection
Reach-one = later start (connected 1 one_connection register_first)

abbrev asked_entry : SnapshotPending
asked_entry = record { pending_conn_ids = (1, tt) ∷ []; replies = []; notified = false }

abbrev replied_entry : SnapshotPending
replied_entry = record { pending_conn_ids = []; replies = (1, answer) ∷ []; notified = true }

Reach-asked : Reach outside 1 asked
unfolding get handle_message begin_snapshot filter_map_values validate_handshake is_blank
    is_absolute insert new_state remove retain map_values
Reach-asked = later (later Reach-one (received 1 (handshake hello) refl)) snapshot_begun

Reach-replied : Reach outside 1 replied
unfolding get handle_message begin_snapshot filter_map_values validate_handshake is_blank
    is_absolute insert new_state remove retain map_values
Reach-replied = later Reach-asked (received 1 (snapshot_reply answer) refl)

asked_pending : get (pos 1) asked.pending_snapshots ≡ some asked_entry
unfolding get handle_message begin_snapshot filter_map_values validate_handshake is_blank
    is_absolute insert new_state remove retain map_values
asked_pending = refl

replied_pending : get (pos 1) replied.pending_snapshots ≡ some replied_entry
unfolding get handle_message begin_snapshot filter_map_values validate_handshake is_blank
    is_absolute insert new_state remove retain map_values
replied_pending = refl

Step-IsConsistent_example : IsConsistent asked
unfolding get
Step-IsConsistent_example =
    Step-IsConsistent outside snapshot_begun
      (Reach-IsConsistent outside (later Reach-one (received 1 (handshake hello) refl)))

disconnect-finish_snapshot_example :
    (d : ConnectionId) × ((finish_snapshot outside.links outside.load_table outside.to_string
        (pos 99)
        (pos 1)
        (disconnect 1 replied)).1
      ≡ err (reply_without_conn_info d))
unfolding get
disconnect-finish_snapshot_example =
    disconnect-finish_snapshot outside (pos 99) (pos 1) replied_entry 1 answer nothing_seen
      Reach-replied replied_pending refl refl

all_answered :
    (c : ConnectionId)
    → contains_key c asked_entry.pending_conn_ids ≡ true
    → answered (pos 1) c (closes 1 ∷ []) ≡ true
unfolding get
all_answered c h = ground arith

apply_answers-notified_example :
    (q : SnapshotPending) × (get (pos 1) (apply_answers (closes 1 ∷ []) asked).pending_snapshots
      ≡ some q)
    × (is_empty q.pending_conn_ids ≡ true)
    × (q.notified ≡ true)
apply_answers-notified_example =
    apply_answers-notified outside asked (pos 1) asked_entry (closes 1 ∷ []) Reach-asked
      asked_pending all_answered

store_snapshot-IsHistory_example :
    let t = store_snapshot (pos 1) "{}" first_state in
    IsHistory snapshot_history_limit t.snapshot_history_ids t.snapshot_history_json
    × (get (pos 1) t.snapshot_history_json ≡ some "{}")
    × (t.last_snapshot_json ≡ some "{}")
unfolding new_state get contains_id
store_snapshot-IsHistory_example =
    store_snapshot-IsHistory (pos 1) "{}" first_state (omega arith, tt, λ q. refl)

abbrev trace : BacktraceRecord
trace = record { id = 9; frames = record { module_id = 3; rel_pc = 16 } ∷ [] }

abbrev stored_module : StoredModuleManifestEntry
stored_module = record {
  module_id = 3;
  module_path = "/app";
  module_identity = "build_id:b1";
  arch = "x86_64";
  runtime_base = 4096;
}

backtrace_frames_for_store-AreRows_example :
    (rows : List BacktraceFramePersist) × (backtrace_frames_for_store (stored_module ∷ []) trace
      ≡ ok rows)
    × AreRows (stored_module ∷ []) 0 trace.frames rows
backtrace_frames_for_store-AreRows_example =
    backtrace_frames_for_store-AreRows (stored_module ∷ []) trace (refl, tt)

validate_handshake_iff_example : (validate_handshake hello ≡ ok tt) ↔ (
    (is_blank hello.process_id ≡ false)
    × (is_blank hello.process_name ≡ false)
    × All IsUsable hello.module_manifest)
validate_handshake_iff_example = validate_handshake_iff hello
