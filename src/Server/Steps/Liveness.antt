-- ===== src/Server/Steps/Liveness.antt =====
-- The end of the wait for a snapshot.
use mathlib.Core.Option
use peeps.Prelude.{
  Bool-cases, not, ◌&&◌, ℤ, ◌≡◌, refl, ◌∙◌, Bool, true, false, Option, none, some, List, [], ◌∷◌,
  nat_ord, int_ord, arith, inl, inr, eqb, eqb_iff, ◌||◌, if◌then◌else◌,
}
use peeps.BTreeMap.{get, insert, contains_key}
use peeps.BTreeMap.Laws.{get-insert, get-remove}
use peeps.Types.Snapshot.{ConnectionId}
use peeps.Wire.Messages.{SnapshotReply}
use peeps.Server.{ServerState, SnapshotPending, ConnectionSet}
use peeps.Server.Connections.{disconnect, forget_in_snapshot, is_empty}
use peeps.Server.Connections.Messages.{reply_in, accept_reply}
use peeps.Server.Steps.{Outside, Reach}
use peeps.Server.Steps.Invariant.{IsConsistent}
use peeps.Server.Steps.Preserved.{disconnect-IsConsistent, reply_in-IsConsistent}
use peeps.Server.Steps.Safety.{get-disconnect}
use peeps.Server.Steps.Reachable.{Reach-IsConsistent}

-- What brings a snapshot forward: a reply to one, or a connection that closes.
pub data Answer : Type 0 where
  replies : ConnectionId → SnapshotReply → Answer
  closes : ConnectionId → Answer

-- Whether an answer comes from a connection, and, if it is a reply, is for the snapshot.
abbrev pub answers_for : ℤ → ConnectionId → Answer → Bool
answers_for id c (replies k reply) = if eqb c k then eqb id reply.snapshot_id else false
answers_for id c (closes k) = eqb c k

abbrev pub answered : ℤ → ConnectionId → List Answer → Bool
answered id c [] = false
answered id c (a ∷ answers) = answers_for id c a || answered id c answers

module _ {R : Type 0} where
  abbrev pub apply_answer : Answer → ServerState R → ServerState R
  apply_answer (replies k reply) s = reply_in k reply s
  apply_answer (closes k) s = disconnect k s

  abbrev pub apply_answers : List Answer → ServerState R → ServerState R
  apply_answers [] s = s
  apply_answers (a ∷ answers) s = apply_answers answers (apply_answer a s)

  -- The snapshot is pending, and waits only for connections with a property.
  abbrev Waits : ℤ → ServerState R → (ConnectionId → Bool) → Type 0
  Waits id s waits =
      (p : SnapshotPending) × (get id s.pending_snapshots ≡ some p)
      × ((c : ConnectionId) → contains_key c p.pending_conn_ids ≡ true → waits c ≡ true)

  get-reply_in :
      (id : ℤ) (k : ConnectionId) (reply : SnapshotReply) (s : ServerState R)
      → get id (reply_in k reply s).pending_snapshots ≡ (
          if eqb id reply.snapshot_id
          then Option.map (accept_reply k reply) (get id s.pending_snapshots)
          else get id s.pending_snapshots)
  unfolding reply_in
  get-reply_in id k reply s = cases (get reply.snapshot_id s.pending_snapshots) refl
    where
      cases :
          (r : Option SnapshotPending)
          → get reply.snapshot_id s.pending_snapshots ≡ r
          → get id
              (elim r as (λ x. ServerState R) [
                | none ↦ s
                | some pending ↦ record s {
                  pending_snapshots =
                      insert reply.snapshot_id (accept_reply k reply pending) s.pending_snapshots;
                }
              ]).pending_snapshots
            ≡ (if eqb id reply.snapshot_id
                then Option.map (accept_reply k reply) (get id s.pending_snapshots)
                else get id s.pending_snapshots)
      cases none e = ground (arith, e, eqb_iff id reply.snapshot_id)
      cases (some q) e = ground (
        arith,
        e,
        eqb_iff id reply.snapshot_id,
        get-insert id reply.snapshot_id (accept_reply k reply q) s.pending_snapshots,
      )

  apply_answer-Waits :
      (id : ℤ) (a : Answer) (s : ServerState R) (waits : ConnectionId → Bool)
      → Waits id s waits
      → Waits id (apply_answer a s) (λ c. waits c && not (answers_for id c a))
  apply_answer-Waits id (replies k reply) s waits (p, e, h) =
      elim (Bool-cases (eqb id reply.snapshot_id)) [
        | inl same ↦ (
          accept_reply k reply p,
          get-reply_in id k reply s ∙ rw (same, e) refl,
          λ c w. ground (arith, h c, same, w, get-remove c k p.pending_conn_ids),
        )
        | inr other ↦
            (p, get-reply_in id k reply s ∙ rw other e, λ c w. ground (arith, h c, other, w))
      ]
  apply_answer-Waits id (closes k) s waits (p, e, h) = (
    forget_in_snapshot k p,
    get-disconnect s k id p e,
    λ c w. ground (arith, h c, w, get-remove c k p.pending_conn_ids),
  )

  apply_answers-Waits :
      (id : ℤ) (answers : List Answer) (s : ServerState R) (waits : ConnectionId → Bool)
      → Waits id s waits
      → Waits id (apply_answers answers s) (λ c. waits c && not (answered id c answers))
  apply_answers-Waits id [] s waits (p, e, h) = (p, e, λ c w. ground (arith, h c))
  apply_answers-Waits id (a ∷ answers) s waits w =
      let (p, e, h) =
        apply_answers-Waits id answers (apply_answer a s) _ (apply_answer-Waits id a s waits w) in
      (p, e, λ c q. ground (arith, h c, q))

  apply_answers-IsConsistent :
      (answers : List Answer) (s : ServerState R)
      → IsConsistent s
      → IsConsistent (apply_answers answers s)
  apply_answers-IsConsistent [] s inv = inv
  apply_answers-IsConsistent (replies k reply ∷ answers) s inv =
      apply_answers-IsConsistent answers _ (reply_in-IsConsistent inv k reply)
  apply_answers-IsConsistent (closes k ∷ answers) s inv =
      apply_answers-IsConsistent answers _ (disconnect-IsConsistent inv k)

nobody-is_empty :
    (m : ConnectionSet) → ((c : ConnectionId) → contains_key c m ≡ false) → is_empty m ≡ true
unfolding get
nobody-is_empty [] none_there = refl
nobody-is_empty ((c, u) ∷ m) none_there =
    absurd (let here = none_there c in ground (arith, eqb_iff c c))

module _ (out : Outside) {R : Type 0} where
  -- From a reachable state with a pending snapshot, after replies and closed connections in any
  -- order, among them for each connection that the snapshot waits for its reply or its end, the
  -- snapshot is still pending, waits for nobody, and its task has been notified.
  pub apply_answers-notified :
      {first : ConnectionId} (s : ServerState R) (id : ℤ) (p : SnapshotPending)
      (answers : List Answer)
      → Reach out first s
      → get id s.pending_snapshots ≡ some p
      → ((c : ConnectionId)
          → contains_key c p.pending_conn_ids ≡ true
          → answered id c answers ≡ true)
      → (q : SnapshotPending) × (get id (apply_answers answers s).pending_snapshots ≡ some q)
        × (is_empty q.pending_conn_ids ≡ true)
        × (q.notified ≡ true)
  apply_answers-notified s id p answers reach asked all =
      let inv = apply_answers-IsConsistent answers s (Reach-IsConsistent out reach) in
      let (q, e, h) =
        apply_answers-Waits id answers s (λ c. contains_key c p.pending_conn_ids)
          (p, asked, λ c w. w) in
      let empty = nobody-is_empty q.pending_conn_ids (λ c. ground (arith, h c, all c)) in
      (q, e, empty, (inv.snapshots id q e).1 empty)
