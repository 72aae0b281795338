-- ===== src/Server/Symbolication/Ended.antt =====
-- The stream ends: each frame is known or given up after a bounded number of rounds.
use mathlib.Core.Path.{subst}
use peeps.Prelude.{
  suc, ℤ, ◌-◌, ◌≡◌, refl, sym, ap, ◌∙◌, Bool, true, false, List, [], ◌∷◌, nat_ord, ◌==◌, ==_iff,
  leb, not, ◌||◌, length, arith, Bool-cases, inl, inr, ◌⊎◌, Distinct,
}
use peeps.Types.Snapshot.{SnapshotFrameRecord, SnapshotSymbolicationUpdate}
use peeps.Server.Snapshots.{SnapshotBacktraceTable}
use peeps.Server.Symbolication.{
  Stream, Next, ended, stall_ticks_limit, completed_count, updated_frames, is_nil_frames,
  after_round, stream_round, stream_rounds, then_deliver,
}
use peeps.Server.Symbolication.Client.{
  Frames, receive, ids_of, Holds, SyncOn, update-Holds, Holds-updated_frames, Holds-sync,
}
use peeps.Server.Symbolication.Rounds.{
  rounds_of, IsQuiet, next_ticks, forced, sent, rounds-ended, rounds-go_on, remembered,
  after_round_complete, after_round-waiting, stream_round-stalled, stream_round-quiet,
  stream_round-changed, remembered-IsQuiet, stream_rounds-stalled,
}
use peeps.Server.Symbolication.Settled.{Settled, forced-Settled, complete-Settled}

-- Whether the last update says that the stream is done.
abbrev pub ends_done : List SnapshotSymbolicationUpdate → Bool
ends_done [] = false
ends_done (u ∷ []) = u.done
ends_done (u ∷ v ∷ us) = ends_done (v ∷ us)

-- The updates of a stream that has ended: each frame is settled at the client, and the last
-- update says so, unless there was nothing to say.
pub record HasEnded (table : SnapshotBacktraceTable) (client : Frames)
    (out : List SnapshotSymbolicationUpdate × Next) : Type 0 where
  pub ends : out.1 ≡ ended
  pub settles : Settled (receive client out.0) table.frames
  pub says_so :
      ((out.0 ≡ []) × (completed_count table.frames ≡ length table.frames))
      ⊎ (ends_done out.0 ≡ true)

module _ (snapshot_id : ℤ) (table : SnapshotBacktraceTable) (client : Frames) (s : Stream)
    (distinct : Distinct (ids_of table.frames))
    (sync : SyncOn (ids_of table.frames) client s.previous_frames) where
  abbrev frames : List SnapshotFrameRecord
  frames = table.frames

  abbrev EndedRounds : Type 0
  EndedRounds =
      HasEnded table client (stream_rounds snapshot_id (rounds_of (suc stall_ticks_limit) table) s)

  changed-Holds : Holds (receive client (sent snapshot_id table s ∷ [])) frames
  changed-Holds = update-Holds client s.previous_frames frames distinct sync

  quiet-Holds : IsQuiet table s → Holds client frames
  quiet-Holds q =
      Holds-sync client s.previous_frames frames sync
        (Holds-updated_frames s.previous_frames frames q.same_frames)

  ended_with :
      (updates : List SnapshotSymbolicationUpdate)
      → stream_rounds snapshot_id (rounds_of (suc stall_ticks_limit) table) s ≡ (updates, ended)
      → HasEnded table client (updates, ended)
      → EndedRounds
  ended_with updates e h = subst (λ out. HasEnded table client out) (sym e) h

  abbrev update : SnapshotSymbolicationUpdate
  update = sent snapshot_id table s

  changed-ends :
      stream_round snapshot_id table true s ≡ (update ∷ [], after_round snapshot_id frames 0)
      → EndedRounds
  changed-ends h = elim (Bool-cases (completed_count frames == length frames)) [
    | inl complete ↦
        ended_with (update ∷ [])
          (rounds-ended snapshot_id table stall_ticks_limit s (update ∷ []) (
            h
            ∙ ap (λ next. (update ∷ [], next)) (after_round_complete snapshot_id table 0 complete)))
          (record {
            ends = refl;
            settles =
                complete-Settled (receive client (update ∷ [])) frames
                  ((==_iff (completed_count frames) (length frames)).0 complete) changed-Holds;
            says_so = inr complete;
          })
    | inr waiting ↦
        ended_with (update ∷ forced snapshot_id table ∷ [])
          (rounds-go_on snapshot_id table stall_ticks_limit s (remembered snapshot_id table 0)
              (update ∷ [])
              (h
                ∙ ap (λ next. (update ∷ [], next))
                    (after_round-waiting snapshot_id table 0 waiting))
            ∙ ap (then_deliver snapshot_id (update ∷ [])) (
                stream_rounds-stalled snapshot_id table distinct (stall_ticks_limit - 1)
                  (remembered snapshot_id table 0) waiting
                  (remembered-IsQuiet snapshot_id table distinct 0) (omega arith)))
          (record {
            ends = refl;
            settles = forced-Settled (receive client (update ∷ [])) frames distinct changed-Holds;
            says_so = inr refl;
          })
  ]

  quiet-ends : IsQuiet table s → EndedRounds
  quiet-ends q = elim (Bool-cases (completed_count frames == length frames)) [
    | inr waiting ↦
        ended_with (forced snapshot_id table ∷ [])
          (stream_rounds-stalled snapshot_id table distinct stall_ticks_limit s waiting q
            (omega arith))
          (record {
            ends = refl;
            settles = forced-Settled client frames distinct (quiet-Holds q);
            says_so = inr refl;
          })
    | inl complete ↦ elim (Bool-cases (leb stall_ticks_limit (next_ticks s))) [
      | inl stall ↦
          ended_with (forced snapshot_id table ∷ [])
            (rounds-ended snapshot_id table stall_ticks_limit s (forced snapshot_id table ∷ [])
              (stream_round-stalled snapshot_id table s q stall))
            (record {
              ends = refl;
              settles = forced-Settled client frames distinct (quiet-Holds q);
              says_so = inr refl;
            })
      | inr more ↦
          ended_with []
            (rounds-ended snapshot_id table stall_ticks_limit s [] (
              stream_round-quiet snapshot_id table s q more
              ∙ ap (λ next. ([], next))
                  (after_round_complete snapshot_id table (next_ticks s) complete)))
            (record {
              ends = refl;
              settles =
                  complete-Settled client frames
                    ((==_iff (completed_count frames) (length frames)).0 complete) (quiet-Holds q);
              says_so = inl (refl, (==_iff (completed_count frames) (length frames)).0 complete);
            })
    ]
  ]

  is_nil_frames-nil : (rs : List SnapshotFrameRecord) → is_nil_frames rs ≡ true → rs ≡ []
  is_nil_frames-nil [] h = refl
  is_nil_frames-nil (r ∷ rs) h = absurd (cc)

  -- A stream that remembers only what its client knows, with a table that stays as it is and
  -- whose records have distinct identifiers, and a client that takes each update: within
  -- `stall_ticks_limit + 1` rounds the stream has ended, the client has of each record the
  -- frame, or the frame given up where it is still pending, and the last update says that the
  -- stream is done, unless no update is sent since no frame is pending.
  pub stream_rounds-HasEnded :
      HasEnded table client (stream_rounds snapshot_id (rounds_of (suc stall_ticks_limit) table) s)
  stream_rounds-HasEnded =
      elim (Bool-cases (
        not (is_nil_frames (updated_frames s.previous_frames frames))
        || not (completed_count frames == s.previous_completed))) [
          | inl changed ↦ changed-ends (stream_round-changed snapshot_id table s changed)
          | inr same ↦ quiet-ends (record {
            same_frames =
                is_nil_frames-nil (updated_frames s.previous_frames frames) (ground arith);
            same_count = ground arith;
          })
        ]
