-- ===== src/Server/Steps/Invariant.antt =====
-- What ties the cuts and the pending snapshots to the connections.
use peeps.Prelude.{◌≤◌, ◌≡◌, Bool, true, false, none, nat_ord, int_ord, string_ord, is_some}
use peeps.BTreeMap.{BTreeMap, get, contains_key}
use peeps.BTreeMap.Ascending.{Ascending, and_then}
use peeps.BTreeMap.Each.{Each}
use peeps.Types.Snapshot.{ConnectionId}
use peeps.Server.{ServerState, ConnectedProcess, CutState, SnapshotPending}
use peeps.Server.Connections.{is_empty}

abbrev pub Connections : Type 0
Connections = BTreeMap ConnectionId ConnectedProcess

-- Whether a connection has introduced its process.
abbrev pub is_identified : ConnectionId → Connections → Bool
is_identified c connections =
    is_some (and_then (λ (conn : ConnectedProcess). conn.process_id) (get c connections))

-- The connections that a cut waits for, and those that acknowledged it, are connected, and none is
-- both.
abbrev pub CutFits : Connections → CutState → Type 0
CutFits connections cut =
    (c : ConnectionId)
    → (contains_key c cut.pending_conn_ids ≡ true → contains_key c connections ≡ true)
      × (contains_key c cut.acks ≡ true → contains_key c connections ≡ true)
      × (contains_key c cut.pending_conn_ids ≡ true → contains_key c cut.acks ≡ false)

-- A snapshot waits only for connections that introduced themselves, and when it waits for none its
-- task is notified.
abbrev pub SnapshotFits : Connections → SnapshotPending → Type 0
SnapshotFits connections p =
    ((c : ConnectionId)
      → contains_key c p.pending_conn_ids ≡ true
      → is_identified c connections ≡ true)
    × (is_empty p.pending_conn_ids ≡ true → p.notified ≡ true)

pub record IsConsistent {R : Type 0} (s : ServerState R) : Type 0 where
  pub ascending : Ascending s.connections
  pub fresh : (c : ConnectionId) → s.next_conn_id ≤ c → get c s.connections ≡ none
  pub cuts : Each (CutFits s.connections) s.cuts
  pub snapshots : Each (SnapshotFits s.connections) s.pending_snapshots
