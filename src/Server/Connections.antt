-- ===== src/Server/Connections.antt =====
-- crates/moire-web/src/tcp/mod.rs `handle_conn`: what the start and the end of a connection do to the
-- shared state, each under one lock. Log lines are left out.
pub mod Messages
use peeps.Prelude.{
  ℕ, Bool, true, false, Option, none, some, List, [], ◌∷◌, String, nat_ord, ◌&&◌, ◌||◌, Result, ok,
  err, ◌>>=◌, hexadecimal, concat,
}
use peeps.BTreeMap.{BTreeMap, get, insert, remove, contains_key}
use peeps.BTreeMap.Values.{map_values}
use peeps.BTreeMap.Ascending.{and_then}
use peeps.Types.{ProcessId}
use peeps.Types.Snapshot.{ConnectionId}
use peeps.Server.{
  ServerState, ConnectedProcess, CutState, SnapshotPending, Panic, next_connection_id,
  ConnectionSet,
}

abbrev pub new_process : ConnectionId → ConnectedProcess
new_process conn_id = record {
  process_id = none;
  process_name = concat "unknown-CONNECTION#" (hexadecimal conn_id);
  pid = 0;
  handshake_received = false;
  module_manifest = [];
}

abbrev pub is_empty : ConnectionSet → Bool
is_empty [] = true
is_empty (c ∷ cs) = false

-- The last part of `handle_conn`.
abbrev pub forget_in_cut : ConnectionId → CutState → CutState
forget_in_cut conn_id cut = record cut {
  pending_conn_ids = remove conn_id cut.pending_conn_ids;
  acks = remove conn_id cut.acks;
}

abbrev pub forget_in_snapshot : ConnectionId → SnapshotPending → SnapshotPending
forget_in_snapshot conn_id pending =
    let remaining = remove conn_id pending.pending_conn_ids in
    record pending {
      pending_conn_ids = remaining;
      notified =
          pending.notified || (contains_key conn_id pending.pending_conn_ids && is_empty remaining);
    }

module _ {R : Type 0} where
  -- The first part of `handle_conn`: a number for the connection, and its entry.
  unfoldable pub register : ServerState R → Result Panic (ConnectionId × ServerState R)
  register s = do
    next ← next_connection_id s.next_conn_id
    ok (
      s.next_conn_id,
      record s {
        next_conn_id = next;
        connections = insert s.next_conn_id (new_process s.next_conn_id) s.connections;
      },
    )

  unfoldable pub disconnect : ConnectionId → ServerState R → ServerState R
  disconnect conn_id s = record s {
    connections = remove conn_id s.connections;
    cuts = map_values (forget_in_cut conn_id) s.cuts;
    pending_snapshots = map_values (forget_in_snapshot conn_id) s.pending_snapshots;
  }

  abbrev pub process_id_of : ConnectionId → ServerState R → Option ProcessId
  process_id_of conn_id s =
      and_then (λ (conn : ConnectedProcess). conn.process_id) (get conn_id s.connections)
