-- ===== src/Server/Steps/Preserved.antt =====
-- Each operation keeps the shared state consistent.
pub mod Taking
use mathlib.Core.Path.{subst}
use peeps.Prelude.{
  ℕ, ℤ, ◌+◌, ◌≤◌, ◌<◌, ◌≡◌, refl, Bool, true, false, Option, none, some, [], ◌∷◌, arith, eqb,
  eqb_iff, nat_ord, int_ord, string_ord, is_some, ok, err, Result, Bool-cases, ltb, ltb→lt, ltb→le,
  ◌||◌, ◌&&◌, Option-cases, inl, inr, ◌>>=◌,
}
use peeps.BTreeMap.{BTreeMap, get, insert, remove, contains_key}
use peeps.BTreeMap.Laws.{get-insert, get-remove}
use peeps.BTreeMap.Ascending.{and_then, insert-Ascending, remove-Ascending}
use peeps.BTreeMap.Each.{Each, insert-Each, map_values-Each}
use peeps.Types.Change.{CutAck}
use peeps.Types.Snapshot.{ConnectionId}
use peeps.Wire.Messages.{Handshake, SnapshotReply}
use peeps.Server.{
  ServerState, next_connection_id, Panic, ConnectedProcess, CutState, SnapshotPending, new_state,
}
use peeps.Server.Connections.{
  register, disconnect, forget_in_cut, forget_in_snapshot, new_process, process_id_of,
}
use peeps.Server.Connections.Messages.{
  introduce, set_process, accept_reply, reply_in, accept_ack, ack_in,
}
use peeps.Server.Steps.Invariant.{CutFits, SnapshotFits, IsConsistent}
use peeps.Server.Steps.Fits.{
  insert-CutFits, insert-SnapshotFits, forget_in_cut-CutFits, forget_in_snapshot-SnapshotFits,
  accept_reply-SnapshotFits, accept_ack-CutFits,
}

-- The next connection number, if there is one, is larger.
next_connection_id-lt : (id next : ConnectionId) → next_connection_id id ≡ ok next → id < next
unfolding next_connection_id
next_connection_id-lt id next h = ground arith

module _ {R : Type 0} where
  pub new_state-IsConsistent : (first : ConnectionId) → IsConsistent (new_state R first)
  unfolding new_state get
  new_state-IsConsistent first = record {
    ascending = tt;
    fresh = λ c h. refl;
    cuts = λ q v h. absurd (cc);
    snapshots = λ q v h. absurd (cc);
  }

  module _ {s : ServerState R} (inv : IsConsistent s) where
    open inv use {ascending, fresh, cuts, snapshots}

    -- A connection that may replace another only by one that is identified if the other was.
    insert-IsConsistent :
        (k next : ConnectionId) (conn : ConnectedProcess)
        → k < next
        → s.next_conn_id ≤ next
        → ((process : ConnectedProcess)
            → get k s.connections ≡ some process
            → is_some process.process_id ≡ true
            → is_some conn.process_id ≡ true)
        → IsConsistent (record s { next_conn_id = next; connections = insert k conn s.connections })
    insert-IsConsistent k next conn lt le same = record {
      ascending = insert-Ascending k conn s.connections ascending;
      fresh = λ c h. ground (arith, get-insert c k conn s.connections, fresh c, eqb_iff c k);
      cuts = λ q cut h. insert-CutFits s.connections k conn cut (cuts q cut h);
      snapshots = λ q p h.
          insert-SnapshotFits s.connections k conn p
            (λ old. elim (Option-cases (get k s.connections)) [
              | inl e ↦ ground arith
              | inr (process, e) ↦ ground (arith, same process)
            ])
            (snapshots q p h);
    }

    pub register-IsConsistent :
        (conn_id : ConnectionId) (t : ServerState R) → register s ≡ ok (conn_id, t) → IsConsistent t
    unfolding register
    register-IsConsistent conn_id t h = numbered (next_connection_id s.next_conn_id) refl h
      where
        numbered :
            (r : Result Panic ConnectionId)
            → next_connection_id s.next_conn_id ≡ r
            → (r >>= λ next.
                let result : ConnectionId × ServerState R = (
                  s.next_conn_id,
                  record s {
                    next_conn_id = next;
                    connections = insert s.next_conn_id (new_process s.next_conn_id) s.connections;
                  },
                ) in
                ok result)
              ≡ ok (conn_id, t)
            → IsConsistent t
        numbered (err e) q d = absurd (cc)
        numbered (ok next) q d =
            let lt = next_connection_id-lt s.next_conn_id next q in
            subst IsConsistent (cc) (
              insert-IsConsistent s.next_conn_id next (new_process s.next_conn_id) lt (omega arith)
                (λ process e. absurd (let gone = fresh s.next_conn_id (omega arith) in cc)))

    pub disconnect-IsConsistent : (k : ConnectionId) → IsConsistent (disconnect k s)
    unfolding disconnect
    disconnect-IsConsistent k = record {
      ascending = remove-Ascending k s.connections ascending;
      fresh = λ c h. ground (arith, get-remove c k s.connections, fresh c);
      cuts =
          map_values-Each _ _ (forget_in_cut k) s.cuts (forget_in_cut-CutFits s.connections k) cuts;
      snapshots =
          map_values-Each _ _ (forget_in_snapshot k) s.pending_snapshots
            (forget_in_snapshot-SnapshotFits s.connections k) snapshots;
    }

    pub set_process-IsConsistent :
        (k : ConnectionId) (h : Handshake) → IsConsistent (set_process k h s)
    unfolding set_process introduce
    set_process-IsConsistent k h = elim (Option-cases (get k s.connections)) [
      | inl e ↦ rw (e, set_process) inv
      | inr (process, e) ↦
          rw (e, set_process)
            (insert-IsConsistent k s.next_conn_id (introduce h process)
              (elim (Bool-cases (ltb k s.next_conn_id)) [
                | inl lt ↦ ltb→lt _ _ lt
                | inr ge ↦ absurd (let gone = fresh k (ltb→le _ _ ge) in cc)
              ])
              (omega arith) (λ old d q. refl))
    ]

    pub reply_in-IsConsistent :
        (k : ConnectionId) (reply : SnapshotReply) → IsConsistent (reply_in k reply s)
    unfolding reply_in
    reply_in-IsConsistent k reply =
        elim (Option-cases (get reply.snapshot_id s.pending_snapshots)) [
          | inl e ↦ rw (e, reply_in) inv
          | inr (p, e) ↦
              rw (e, reply_in)
                (record {
                  ascending = ascending;
                  fresh = fresh;
                  cuts = cuts;
                  snapshots =
                      insert-Each _ _ _ _
                        (accept_reply-SnapshotFits s.connections k reply p (snapshots _ p e))
                        snapshots;
                })
        ]

    pub ack_in-IsConsistent :
        (k : ConnectionId) (ack : CutAck)
        → contains_key k s.connections ≡ true
        → IsConsistent (ack_in k ack s)
    unfolding ack_in
    ack_in-IsConsistent k ack live = elim (Option-cases (get ack.cut_id s.cuts)) [
      | inl e ↦ rw (e, ack_in) inv
      | inr (cut, e) ↦
          rw (e, ack_in)
            (record {
              ascending = ascending;
              fresh = fresh;
              cuts =
                  insert-Each _ _ _ _
                    (accept_ack-CutFits s.connections k ack cut live (cuts _ cut e)) cuts;
              snapshots = snapshots;
            })
    ]
