-- ===== src/Server/Steps/Safety.antt =====
-- When the assembly of a snapshot panics, and when it does not.
use mathlib.Core.Option
use peeps.Prelude.{ap, ◌∙◌, ℤ, ◌≡◌, refl, false, some, err, nat_ord, int_ord, arith, eqb_iff}
use peeps.BTreeMap.{get, contains_key}
use peeps.BTreeMap.Laws.{get-remove}
use peeps.BTreeMap.Values.{get-map_values}
use peeps.BTreeMap.Ascending.{get-filter_map_values}
use peeps.Types.Snapshot.{ConnectionId, Snapshot}
use peeps.Wire.Messages.{SnapshotReply}
use peeps.Server.{ServerState, SnapshotPending, reply_without_conn_info}
use peeps.Server.Connections.{disconnect, forget_in_snapshot}
use peeps.Server.Snapshots.{conn_info_of, assemble}
use peeps.Server.Snapshots.Assembly.{views-panics}
use peeps.Server.Snapshots.Taking.{conn_infos, finish_snapshot}
use peeps.Server.Steps.{Outside, Reach, later, disconnected}
use peeps.Server.Steps.Invariant.{is_identified, IsConsistent}
use peeps.Server.Steps.Reachable.{Reach-IsConsistent}

-- A connection is described exactly when it introduced its process.
contains_key-conn_infos :
    {R : Type 0} (s : ServerState R) (c : ConnectionId)
    → IsConsistent s
    → contains_key c (conn_infos s) ≡ is_identified c s.connections
contains_key-conn_infos s c inv =
    ground (arith, get-filter_map_values conn_info_of c s.connections inv.ascending)

pub get-disconnect :
    {R : Type 0} (s : ServerState R) (c : ConnectionId) (id : ℤ) (p : SnapshotPending)
    → get id s.pending_snapshots ≡ some p
    → get id (disconnect c s).pending_snapshots ≡ some (forget_in_snapshot c p)
unfolding disconnect
get-disconnect s c id p asked =
    get-map_values (forget_in_snapshot c) id s.pending_snapshots
    ∙ ap (Option.map (forget_in_snapshot c)) asked

not-is_identified-disconnect :
    {R : Type 0} (s : ServerState R) (c : ConnectionId)
    → is_identified c (disconnect c s).connections ≡ false
unfolding disconnect
not-is_identified-disconnect s c = ground (arith, get-remove c c s.connections, eqb_iff c c)

module _ (out : Outside) {R : Type 0} where
  -- In a reachable state, if a connection replied to a snapshot with a snapshot of its process, but
  -- is gone or never introduced its process, the task of the snapshot panics.
  pub finish_snapshot-panics :
      {first : ConnectionId} {s : ServerState R} (now_ms id : ℤ) (p : SnapshotPending)
      (c : ConnectionId) (reply : SnapshotReply) (snapshot : Snapshot)
      → Reach out first s
      → get id s.pending_snapshots ≡ some p
      → get c p.replies ≡ some reply
      → reply.snapshot ≡ some snapshot
      → is_identified c s.connections ≡ false
      → (d : ConnectionId) × ((finish_snapshot out.links out.load_table out.to_string now_ms id s).1
          ≡ err (reply_without_conn_info d))
  unfolding finish_snapshot assemble
  finish_snapshot-panics {s = s} now_ms id p c reply snapshot reach asked there sent gone =
      let inv = Reach-IsConsistent out reach in
      let (d, e) =
        views-panics out.links (conn_infos s) c reply snapshot p.replies there sent
          (contains_key-conn_infos s c inv ∙ gone) in
      (d, rw (asked, finish_snapshot, e, assemble) refl)

  -- In a reachable state, if a connection closes after it replied to a pending snapshot with a
  -- snapshot of its process, and before the snapshot's task takes the replies, the task panics for
  -- a reply without a connection.
  pub disconnect-finish_snapshot :
      {first : ConnectionId} {s : ServerState R} (now_ms id : ℤ) (p : SnapshotPending)
      (c : ConnectionId) (reply : SnapshotReply) (snapshot : Snapshot)
      → Reach out first s
      → get id s.pending_snapshots ≡ some p
      → get c p.replies ≡ some reply
      → reply.snapshot ≡ some snapshot
      → (d : ConnectionId) × ((finish_snapshot out.links out.load_table out.to_string now_ms id
            (disconnect c s)).1
          ≡ err (reply_without_conn_info d))
  disconnect-finish_snapshot {s = s} now_ms id p c reply snapshot reach asked there sent =
      finish_snapshot-panics now_ms id (forget_in_snapshot c p) c reply snapshot
        (later reach (disconnected c)) (get-disconnect s c id p asked) there sent
        (not-is_identified-disconnect s c)
