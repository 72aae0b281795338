-- ===== src/Server/Steps/Preserved/Taking.antt =====
-- Cuts and snapshots keep the shared state consistent, from their request to their end.
use mathlib.Core.Path.{subst}
use peeps.Prelude.{
  ℕ, ℤ, ◌≡◌, true, false, Option, none, some, List, [], ◌∷◌, arith, eqb, nat_ord, int_ord,
  string_ord, ok, err, Result, Option-cases, inl, inr, ◌>>=◌, String, not, if◌then◌else◌,
}
use peeps.BTreeMap.{BTreeMap, get, insert, contains_key}
use peeps.BTreeMap.Values.{map_values, get-map_values, filter_map_values}
use peeps.BTreeMap.Ascending.{and_then, Ascending, get-filter_map_values}
use peeps.BTreeMap.Each.{Each, insert-Each, remove-Each}
use peeps.Trace.{BacktraceId}
use peeps.Types.{ProcessId}
use peeps.Types.Change.{CutId}
use peeps.Types.Snapshot.{
  ConnectionId, SnapshotCutResponse, ScopeEntityLink, ProcessSnapshotView, TimedOutProcess,
}
use peeps.Server.{ServerState, next_ordinal, to_cut_id, Panic, ConnectedProcess, SnapshotPending}
use peeps.Server.Cuts.{open_cut, connection_ids}
use peeps.Server.History.{store_snapshot, remember_snapshot}
use peeps.Server.Snapshots.{SnapshotBacktraceTable, assemble}
use peeps.Server.Snapshots.Taking.{
  add_pending, begin_snapshot, finish_empty, take_pending, abandon_snapshot, conn_infos,
  finish_snapshot, refresh_cached_snapshot_from_table, add_stream, complete_snapshot,
}
use peeps.Server.Steps.Invariant.{Connections, CutFits, SnapshotFits, IsConsistent}

get-connection_ids :
    {V : Type 0} (c : ConnectionId) (m : BTreeMap ConnectionId V)
    → contains_key c (connection_ids m) ≡ contains_key c m
get-connection_ids c m = ground (arith, get-map_values (λ _. tt) c m)

new_cut-CutFits :
    (now_ns : ℤ) (connections : Connections)
    → CutFits connections (record {
      requested_at_ns = now_ns;
      pending_conn_ids = connection_ids connections;
      acks = [];
    })
unfolding get
new_cut-CutFits now_ns connections c = ground (arith, get-connection_ids c connections)

add_pending-Each :
    (id : ℤ) (connections : Connections) (pending : BTreeMap ℤ SnapshotPending)
    → Ascending connections
    → Each (SnapshotFits connections) pending
    → Each (SnapshotFits connections) (
        add_pending id
          (filter_map_values (λ (conn : ConnectedProcess). conn.process_id) connections)
          pending)
unfolding map_values
add_pending-Each id connections pending asc old =
    cases (filter_map_values (λ (conn : ConnectedProcess). conn.process_id) connections)
      (λ c. get-filter_map_values (λ (conn : ConnectedProcess). conn.process_id) c connections asc)
  where
    cases :
        (txs : BTreeMap ConnectionId ProcessId)
        → ((c : ConnectionId)
            → get c txs
              ≡ and_then (λ (conn : ConnectedProcess). conn.process_id) (get c connections))
        → Each (SnapshotFits connections) (add_pending id txs pending)
    cases [] same = old
    cases (tx ∷ txs) same =
        insert-Each (SnapshotFits connections) id _ pending
          (λ c h. ground (arith, h, same c, get-connection_ids c (tx ∷ txs)), λ h. cc) old

module _ {R : Type 0} {s : ServerState R} (inv : IsConsistent s) where
  open inv use {ascending, fresh, cuts, snapshots}

  pub open_cut-IsConsistent :
      (now_ns : ℤ) (cut_id : CutId) (t : ServerState R)
      → open_cut now_ns s ≡ ok (cut_id, t)
      → IsConsistent t
  unfolding open_cut
  open_cut-IsConsistent now_ns cut_id t h = numbered (next_ordinal s.next_cut_id) h
    where
      numbered :
          (r : Result Panic ℕ)
          → (r >>= λ next.
              let cut_id = to_cut_id s.next_cut_id in
              let result : CutId × ServerState R = (
                cut_id,
                record s {
                  next_cut_id = next;
                  cuts =
                      insert cut_id
                        (record {
                          requested_at_ns = now_ns;
                          pending_conn_ids = connection_ids s.connections;
                          acks = [];
                        })
                        s.cuts;
                },
              ) in
              ok result)
            ≡ ok (cut_id, t)
          → IsConsistent t
      numbered (err e) d = absurd (cc)
      numbered (ok next) d =
          let opened : ServerState R = record s {
            next_cut_id = next;
            cuts =
                insert (to_cut_id s.next_cut_id)
                  (record {
                    requested_at_ns = now_ns;
                    pending_conn_ids = connection_ids s.connections;
                    acks = [];
                  })
                  s.cuts;
          } in
          let kept : IsConsistent opened = record {
            ascending = ascending;
            fresh = fresh;
            cuts = insert-Each _ _ _ _ (new_cut-CutFits now_ns s.connections) cuts;
            snapshots = snapshots;
          } in
          subst IsConsistent (cc) kept

  pub begin_snapshot-IsConsistent : IsConsistent (begin_snapshot s).2
  unfolding begin_snapshot
  begin_snapshot-IsConsistent = record {
    ascending = ascending;
    fresh = fresh;
    cuts = cuts;
    snapshots =
        add_pending-Each s.next_snapshot_id s.connections s.pending_snapshots ascending snapshots;
  }

  take_pending-IsConsistent : (id : ℤ) → IsConsistent (take_pending id s)
  take_pending-IsConsistent id = record {
    ascending = ascending;
    fresh = fresh;
    cuts = cuts;
    snapshots = remove-Each _ id s.pending_snapshots snapshots;
  }

  add_stream-IsConsistent : (id : ℤ) (ids : List BacktraceId) → IsConsistent (add_stream id ids s)
  unfolding add_stream
  add_stream-IsConsistent id ids = record {
    ascending = ascending;
    fresh = fresh;
    cuts = cuts;
    snapshots = snapshots;
  }

  pub remember_snapshot-IsConsistent :
      (to_string : SnapshotCutResponse → Option String) (snapshot : SnapshotCutResponse)
      → IsConsistent (remember_snapshot to_string snapshot s)
  unfolding remember_snapshot store_snapshot
  remember_snapshot-IsConsistent to_string snapshot = elim (Option-cases (to_string snapshot)) [
    | inl e ↦ rw (e, remember_snapshot) inv
    | inr (json, e) ↦
        rw (e, remember_snapshot)
          (record { ascending = ascending; fresh = fresh; cuts = cuts; snapshots = snapshots })
  ]

module _ {R : Type 0} {s : ServerState R} (inv : IsConsistent s) where
  module _ (to_string : SnapshotCutResponse → Option String) where
    pub finish_empty-IsConsistent :
        (now_ms id : ℤ) → IsConsistent (finish_empty to_string now_ms id s).0
    unfolding finish_empty
    finish_empty-IsConsistent now_ms id =
        remember_snapshot-IsConsistent (add_stream-IsConsistent inv id []) to_string _

    pub refresh-IsConsistent :
        (from_str : String → Option SnapshotCutResponse) (id : ℤ) (table : SnapshotBacktraceTable)
        → IsConsistent (refresh_cached_snapshot_from_table to_string from_str id table s)
    unfolding refresh_cached_snapshot_from_table
    refresh-IsConsistent from_str id table = cases (and_then from_str s.last_snapshot_json)
      where
        cases :
            (r : Option SnapshotCutResponse)
            → IsConsistent (elim r as (λ x. ServerState R) [
              | none ↦ s
              | some cached ↦
                  if not (eqb cached.snapshot_id id)
                  then s
                  else remember_snapshot to_string
                      (record cached { backtraces = table.backtraces; frames = table.frames })
                      s
            ])
        cases none = inv
        cases (some cached) =
            elim (not (eqb cached.snapshot_id id))
              as (λ b. IsConsistent (
                if b
                then s
                else remember_snapshot to_string
                    (record cached { backtraces = table.backtraces; frames = table.frames }) s)) [
                      | true ↦ inv
                      | false ↦ remember_snapshot-IsConsistent inv to_string _
                    ]

module _ {R : Type 0} {s : ServerState R} (inv : IsConsistent s) where
  pub abandon_snapshot-IsConsistent :
      (to_string : SnapshotCutResponse → Option String) (now_ms id : ℤ)
      → IsConsistent (abandon_snapshot to_string now_ms id s).0
  unfolding abandon_snapshot
  abandon_snapshot-IsConsistent to_string now_ms id =
      finish_empty-IsConsistent (take_pending-IsConsistent inv id) to_string now_ms id

  complete_snapshot-IsConsistent :
      (load_table : List BacktraceId → SnapshotBacktraceTable)
      (to_string : SnapshotCutResponse → Option String) (now_ms id : ℤ)
      (parts : List ProcessSnapshotView × List TimedOutProcess)
      → IsConsistent (complete_snapshot load_table to_string now_ms id parts s).0
  unfolding complete_snapshot
  complete_snapshot-IsConsistent load_table to_string now_ms id parts =
      remember_snapshot-IsConsistent (add_stream-IsConsistent inv id _) to_string _

module _ {R : Type 0} {s : ServerState R} (inv : IsConsistent s) where
  pub finish_snapshot-IsConsistent :
      (links : ProcessId → List ScopeEntityLink)
      (load_table : List BacktraceId → SnapshotBacktraceTable)
      (to_string : SnapshotCutResponse → Option String) (now_ms id : ℤ)
      → IsConsistent (finish_snapshot links load_table to_string now_ms id s).0
  unfolding finish_snapshot
  finish_snapshot-IsConsistent links load_table to_string now_ms id =
      elim (assemble links (conn_infos s) (get id s.pending_snapshots))
        as (λ r.
          IsConsistent
            (elim r as (λ x. ServerState R × Result Panic SnapshotCutResponse) [
              | err e ↦ (take_pending id s, err e)
              | ok parts ↦
                  let (done, response) =
                    complete_snapshot load_table to_string now_ms id parts (take_pending id s) in
                  (done, ok response)
            ]).0) [
              | err e ↦ take_pending-IsConsistent inv id
              | ok parts ↦
                  complete_snapshot-IsConsistent (take_pending-IsConsistent inv id) load_table
                    to_string now_ms id parts
            ]
