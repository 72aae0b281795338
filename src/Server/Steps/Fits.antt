-- ===== src/Server/Steps/Fits.antt =====
-- What a change of a connection, a cut or a snapshot keeps of the ties between them.
use peeps.Prelude.{◌≡◌, true, arith, eqb_iff, nat_ord, int_ord, string_ord, is_some}
use peeps.BTreeMap.{insert, remove, contains_key}
use peeps.BTreeMap.Laws.{get-insert, get-remove}
use peeps.BTreeMap.Each.{remove-absent}
use peeps.Types.Change.{CutAck}
use peeps.Types.Snapshot.{ConnectionId}
use peeps.Wire.Messages.{SnapshotReply}
use peeps.Server.{ConnectedProcess, CutState, SnapshotPending}
use peeps.Server.Connections.{forget_in_cut, forget_in_snapshot}
use peeps.Server.Connections.Messages.{accept_reply, accept_ack}
use peeps.Server.Steps.Invariant.{Connections, is_identified, CutFits, SnapshotFits}

module _ (connections : Connections) (k : ConnectionId) where
  -- A connection more, or one with another process.
  pub insert-CutFits :
      (conn : ConnectedProcess) (cut : CutState)
      → CutFits connections cut
      → CutFits (insert k conn connections) cut
  insert-CutFits conn cut fits c = ground (arith, fits c, get-insert c k conn connections)

  pub insert-SnapshotFits :
      (conn : ConnectedProcess) (p : SnapshotPending)
      → (is_identified k connections ≡ true → is_some conn.process_id ≡ true)
      → SnapshotFits connections p
      → SnapshotFits (insert k conn connections) p
  insert-SnapshotFits conn p same fits = (
    λ c h. ground (arith, fits.0 c h, same, get-insert c k conn connections, eqb_iff c k),
    fits.1,
  )

  pub forget_in_cut-CutFits :
      (cut : CutState)
      → CutFits connections cut
      → CutFits (remove k connections) (forget_in_cut k cut)
  forget_in_cut-CutFits cut fits c = ground (
    arith,
    fits c,
    get-remove c k connections,
    get-remove c k cut.pending_conn_ids,
    get-remove c k cut.acks,
  )

  pub forget_in_snapshot-SnapshotFits :
      (p : SnapshotPending)
      → SnapshotFits connections p
      → SnapshotFits (remove k connections) (forget_in_snapshot k p)
  forget_in_snapshot-SnapshotFits p fits = (
    λ c h.
        ground (arith, h, fits.0 c, get-remove c k connections, get-remove c k p.pending_conn_ids),
    λ h. ground (arith, h, fits.1, remove-absent k p.pending_conn_ids),
  )

  pub accept_reply-SnapshotFits :
      (reply : SnapshotReply) (p : SnapshotPending)
      → SnapshotFits connections p
      → SnapshotFits connections (accept_reply k reply p)
  accept_reply-SnapshotFits reply p fits =
      (λ c h. ground (arith, h, fits.0 c, get-remove c k p.pending_conn_ids), λ h. ground arith)

  pub accept_ack-CutFits :
      (ack : CutAck) (cut : CutState)
      → contains_key k connections ≡ true
      → CutFits connections cut
      → CutFits connections (accept_ack k ack cut)
  accept_ack-CutFits ack cut live fits c = ground (
    arith,
    fits c,
    live,
    eqb_iff c k,
    get-insert c k ack cut.acks,
    get-remove c k cut.pending_conn_ids,
  )
