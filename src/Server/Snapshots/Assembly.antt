-- ===== src/Server/Snapshots/Assembly.antt =====
-- The assembly of the processes that replied and of those that did not.
use peeps.Prelude.{
  ℕ, String, ◌⊎◌, none, ◌≡◌, refl, true, false, some, List, [], ◌∷◌, ok, err, nat_ord, arith,
  Option-cases, inl, inr, eqb_iff,
}
use peeps.BTreeMap.{BTreeMap, get, contains_key}
use peeps.Types.{ProcessId}
use peeps.Types.Snapshot.{
  ConnectionId, ScopeEntityLink, Snapshot, TimedOutProcess, ProcessSnapshotView,
}
use peeps.Wire.Messages.{SnapshotReply}
use peeps.Server.{ConnectedProcess, ConnectionSet, reply_without_conn_info}
use peeps.Server.Snapshots.{ConnInfo, timed_out, timed_out_of, views, view_of}

-- The process of a connection, as the connection's entry describes it.
pub record IsProcess (connections : BTreeMap ConnectionId ConnectedProcess) (c : ConnectionId)
    (process_id : ProcessId) (process_name : String) (pid : ℕ) : Type 0 where
  pub conn : ConnectedProcess
  pub there : get c connections ≡ some conn
  pub identified : conn.process_id ≡ some process_id
  pub named : process_name ≡ conn.process_name
  pub numbered : pid ≡ conn.pid

module _ (connections : BTreeMap ConnectionId ConnectedProcess) where
  -- One timed-out process for each connection, in order, as its entry describes it.
  abbrev pub AreTimedOut : ConnectionSet → List TimedOutProcess → Type 0
  AreTimedOut [] [] = Unit
  AreTimedOut [] (p ∷ ps) = ⊥
  AreTimedOut ((c, u) ∷ conns) [] = ⊥
  AreTimedOut ((c, u) ∷ conns) (p ∷ ps) =
      IsProcess connections c p.process_id p.process_name p.pid × AreTimedOut conns ps

  -- One view for each reply that holds a snapshot, in order: that snapshot and the time of the
  -- reply, with the process of the connection and the scope links of that process.
  module _ (links : ProcessId → List ScopeEntityLink) where
    pub record IsView (c : ConnectionId) (reply : SnapshotReply) (v : ProcessSnapshotView)
        : Type 0 where
      pub process : IsProcess connections c v.process_id v.process_name v.pid
      pub sent : reply.snapshot ≡ some v.snapshot
      pub timed : v.ptime_now_ms ≡ reply.ptime_now_ms
      pub linked : v.scope_entity_links ≡ links v.process_id

    abbrev pub AreViews : BTreeMap ConnectionId SnapshotReply → List ProcessSnapshotView → Type 0
    AreViews [] [] = Unit
    AreViews [] (v ∷ vs) = ⊥
    AreViews ((c, reply) ∷ replies) [] = (reply.snapshot ≡ none) × AreViews replies []
    AreViews ((c, reply) ∷ replies) (v ∷ vs) =
        ((reply.snapshot ≡ none) × AreViews replies (v ∷ vs))
        ⊎ (IsView c reply v × AreViews replies vs)

    AreViews-skip :
        (c : ConnectionId) (reply : SnapshotReply) (replies : BTreeMap ConnectionId SnapshotReply)
        (vs : List ProcessSnapshotView)
        → reply.snapshot ≡ none
        → AreViews replies vs
        → AreViews ((c, reply) ∷ replies) vs
    AreViews-skip c reply replies [] e h = (e, h)
    AreViews-skip c reply replies (v ∷ vs) e h = inl (e, h)

module _ (links : ProcessId → List ScopeEntityLink)
    (connections : BTreeMap ConnectionId ConnectedProcess) (infos : BTreeMap ConnectionId ConnInfo)
    (described : (c : ConnectionId) (info : ConnInfo)
      → get c infos ≡ some info
      → IsProcess connections c info.process_id info.process_name info.pid) where
  -- A process for each connection, if every one has a description.
  pub timed_out-ok :
      (conns : ConnectionSet)
      → ((c : ConnectionId) → contains_key c conns ≡ true → contains_key c infos ≡ true)
      → (ps : List TimedOutProcess) × (timed_out links infos conns ≡ ok ps)
        × AreTimedOut connections conns ps
  unfolding timed_out get
  timed_out-ok [] known = ([], refl, tt)
  timed_out-ok ((c, u) ∷ conns) known =
      let (ps, e, n) = timed_out-ok conns (λ d h. known d (ground arith)) in
      elim (Option-cases (get c infos)) [
        | inl gone ↦ absurd (let here = known c (ground (arith, eqb_iff c c)) in cc)
        | inr (info, found) ↦ (
          timed_out_of links infos info ∷ ps,
          rw (found, e, timed_out) refl,
          (described c info found, n),
        )
      ]

  pub views-ok :
      (replies : BTreeMap ConnectionId SnapshotReply)
      → ((c : ConnectionId) → contains_key c replies ≡ true → contains_key c infos ≡ true)
      → (ps : List ProcessSnapshotView) × (views links infos replies ≡ ok ps)
        × AreViews connections links replies ps
  unfolding views get
  views-ok [] known = ([], refl, tt)
  views-ok ((c, reply) ∷ replies) known =
      let (ps, e, good) = views-ok replies (λ d h. known d (ground arith)) in
      elim (Option-cases reply.snapshot) [
        | inl none_sent ↦ (
          ps,
          rw (none_sent, views) e,
          AreViews-skip connections links c reply replies ps none_sent good,
        )
        | inr (snapshot, sent) ↦ elim (Option-cases (get c infos)) [
          | inl gone ↦ absurd (let here = known c (ground (arith, eqb_iff c c)) in cc)
          | inr (info, found) ↦ (
            view_of links infos reply info snapshot ∷ ps,
            rw (sent, found, e, views) refl,
            inr (
              record { process = described c info found; sent = sent; timed = refl; linked = refl },
              good,
            ),
          )
        ]
      ]

module _ (links : ProcessId → List ScopeEntityLink) (infos : BTreeMap ConnectionId ConnInfo) where
  pub views-panics :
      (c : ConnectionId) (reply : SnapshotReply) (snapshot : Snapshot)
      (replies : BTreeMap ConnectionId SnapshotReply)
      → get c replies ≡ some reply
      → reply.snapshot ≡ some snapshot
      → contains_key c infos ≡ false
      → (d : ConnectionId) × (views links infos replies ≡ err (reply_without_conn_info d))
  unfolding views get
  views-panics c reply snapshot [] there sent gone = absurd (cc)
  views-panics c reply snapshot ((k, r) ∷ replies) there sent gone =
      elim (Option-cases r.snapshot) [
        | inl none_sent ↦
            let (d, e) =
              views-panics c reply snapshot replies (ground (arith, eqb_iff c k)) sent gone in
            (d, rw (none_sent, views) e)
        | inr (taken, q) ↦ elim (Option-cases (get k infos)) [
          | inl missing ↦ (k, rw (q, missing, views) refl)
          | inr (info, found) ↦
              let (d, e) =
                views-panics c reply snapshot replies (ground (arith, eqb_iff c k)) sent gone in
              (d, rw (q, found, e, views) refl)
        ]
      ]
