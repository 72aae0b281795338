-- ===== src/Server/Symbolication/Settled.antt =====
-- What a client knows of the frames that the stream gave up waiting for.
use mathlib.Core.Path.{subst}
use peeps.Prelude.{
  ◌≤◌, ◌≡◌, refl, sym, ◌∙◌, false, some, List, [], ◌∷◌, nat_ord, string_ord, eqb_iff, if◌then◌else◌,
  length, arith, Bool-cases, inl, inr, contains, Distinct, All,
}
use peeps.BTreeMap.{get, insert}
use peeps.BTreeMap.Laws.{get-insert}
use peeps.Trace.{FrameId}
use peeps.Types.Snapshot.{SnapshotBacktraceFrame, resolved, unresolved, SnapshotFrameRecord}
use peeps.Server.Table.{is_pending_frame}
use peeps.Server.Symbolication.{
  collect_frame_states, completed_count, forced_updates, stalled_frame,
}
use peeps.Server.Symbolication.Client.{Frames, ids_of, Holds, get-collect_absent}

-- A frame as it is once the stream gave up waiting for it.
abbrev pub settled : SnapshotBacktraceFrame → SnapshotBacktraceFrame
settled f = if is_pending_frame f then stalled_frame f else f

pub is_pending_frame-settled : (f : SnapshotBacktraceFrame) → is_pending_frame (settled f) ≡ false
unfolding is_pending_frame
is_pending_frame-settled (resolved r) = refl
is_pending_frame-settled (unresolved u) = ground arith

-- The client has the settled frame of each record.
abbrev pub Settled : Frames → List SnapshotFrameRecord → Type 0
Settled m = All (λ (r : SnapshotFrameRecord). get r.frame_id m ≡ some (settled r.frame))

contains-forced_updates :
    (id : FrameId) (rs : List SnapshotFrameRecord)
    → contains id (ids_of rs) ≡ false
    → contains id (ids_of (forced_updates rs)) ≡ false
unfolding forced_updates
contains-forced_updates id [] h = refl
contains-forced_updates id (r ∷ rs) h = ground (arith, contains-forced_updates id rs)

Holds-insert_absent :
    (id : FrameId) (f : SnapshotBacktraceFrame) (m : Frames) (rs : List SnapshotFrameRecord)
    → contains id (ids_of rs) ≡ false
    → Holds m rs
    → Holds (insert id f m) rs
Holds-insert_absent id f m [] new h = tt
Holds-insert_absent id f m (r ∷ rs) new (a, h) = (
  ground (arith, get-insert r.frame_id id f m, eqb_iff r.frame_id id, eqb_iff id r.frame_id),
  Holds-insert_absent id f m rs (ground arith) h,
)

pub forced-Settled :
    (client : Frames) (rs : List SnapshotFrameRecord)
    → Distinct (ids_of rs)
    → Holds client rs
    → Settled (collect_frame_states client (forced_updates rs)) rs
unfolding forced_updates collect_frame_states
forced-Settled client [] d h = tt
forced-Settled client (r ∷ rs) (new, d) (a, h) =
    let absent = contains-forced_updates r.frame_id rs new in
    elim (Bool-cases (is_pending_frame r.frame)) [
      | inl waiting ↦
          let stalled = stalled_frame r.frame in
          let keep : forced_updates (r ∷ rs) ≡ record r { frame = stalled } ∷ forced_updates rs =
            rw (waiting, forced_updates) refl in
          subst (λ (u : List SnapshotFrameRecord). Settled (collect_frame_states client u) (r ∷ rs))
            (sym keep)
            (
              get-collect_absent r.frame_id (insert r.frame_id stalled client) (forced_updates rs)
                    absent
                  ∙ ground (
                    arith,
                    get-insert r.frame_id r.frame_id stalled client,
                    eqb_iff r.frame_id r.frame_id,
                  ),
              forced-Settled (insert r.frame_id stalled client) rs d
                  (Holds-insert_absent r.frame_id stalled client rs new h),
            )
      | inr known ↦
          let skip : forced_updates (r ∷ rs) ≡ forced_updates rs =
            rw (known, forced_updates) refl in
          subst (λ (u : List SnapshotFrameRecord). Settled (collect_frame_states client u) (r ∷ rs))
            (sym skip)
            (
              get-collect_absent r.frame_id client (forced_updates rs) absent ∙ ground arith,
              forced-Settled client rs d h,
            )
    ]

completed_count-le : (rs : List SnapshotFrameRecord) → completed_count rs ≤ length rs
unfolding completed_count
completed_count-le [] = omega arith
completed_count-le (r ∷ rs) = ground (arith, completed_count-le rs)

-- A table without pending frames is settled.
pub complete-Settled :
    (client : Frames) (rs : List SnapshotFrameRecord)
    → completed_count rs ≡ length rs
    → Holds client rs
    → Settled client rs
unfolding completed_count
complete-Settled client [] c h = tt
complete-Settled client (r ∷ rs) c (a, h) = (
  ground (arith, completed_count-le rs),
  complete-Settled client rs (ground (arith, completed_count-le rs)) h,
)
