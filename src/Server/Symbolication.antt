-- ===== src/Server/Symbolication.antt =====
-- crates/moire-web/src/api/snapshot.rs `snapshot_symbolication_ws_task`: the updates of one stream.
-- A tick has the table that the database gives, and whether the update of the tick is delivered.
pub mod Client
pub mod Settled
pub mod Rounds
pub mod Ended
pub mod Refreshed
use peeps.Prelude.{
  ℕ, ℤ, ◌+◌, ◌-◌, min, ◌%◌, ◌^◌, Bool, true, false, Option, none, some, List, [], ◌∷◌, ◌++◌, String,
  nat_ord, int_ord, eqb, ltb, leb, ◌==◌, ◌&&◌, ◌||◌, not, if◌then◌else◌, length, retain,
  is_some_and,
}
use peeps.BTreeMap.{BTreeMap, get, insert}
use peeps.Trace.{BacktraceId, FrameId}
use peeps.Types.Snapshot.{
  SnapshotBacktraceFrame, resolved, unresolved, SnapshotFrameRecord, SnapshotSymbolicationUpdate,
  SnapshotCutResponse,
}
use peeps.Server.{ServerState, SnapshotStreamState}
use peeps.Server.Snapshots.{SnapshotBacktraceTable}
use peeps.Server.Snapshots.Taking.{refresh_cached_snapshot_from_table}
use peeps.Server.Table.{is_pending_frame, same_frame}

abbrev pub stall_ticks_limit : ℕ
stall_ticks_limit = 100

abbrev pub stalled_reason : String
stalled_reason = "symbolication stalled: no progress before stream timeout"

-- The variables of the loop.
pub record Stream : Type 0 where
  pub previous_frames : BTreeMap FrameId SnapshotBacktraceFrame
  pub previous_completed : ℕ
  pub unchanged_ticks : ℕ

abbrev pub new_stream : Stream
new_stream = record { previous_frames = []; previous_completed = 0; unchanged_ticks = 0 }

abbrev pub is_nil_frames : List SnapshotFrameRecord → Bool
is_nil_frames [] = true
is_nil_frames (r ∷ rs) = false

unfoldable pub completed_count : List SnapshotFrameRecord → ℕ
completed_count [] = 0
completed_count (r ∷ rs) =
    let rest = completed_count rs in if is_pending_frame r.frame then rest else rest + 1

-- The records that the client has not, or in another state.
unfoldable pub updated_frames :
    BTreeMap FrameId SnapshotBacktraceFrame → List SnapshotFrameRecord → List SnapshotFrameRecord
updated_frames previous [] = []
updated_frames previous (r ∷ rs) =
    let rest = updated_frames previous rs in
    if is_some_and (λ frame. same_frame frame r.frame) (get r.frame_id previous)
    then rest
    else r ∷ rest

abbrev pub stalled_frame : SnapshotBacktraceFrame → SnapshotBacktraceFrame
stalled_frame (resolved r) = resolved r
stalled_frame (unresolved u) = unresolved (record u { reason = stalled_reason })

unfoldable pub forced_updates : List SnapshotFrameRecord → List SnapshotFrameRecord
forced_updates [] = []
forced_updates (r ∷ rs) =
    let rest = forced_updates rs in
    if is_pending_frame r.frame then record r { frame = stalled_frame r.frame } ∷ rest else rest

unfoldable pub collect_frame_states :
    BTreeMap FrameId SnapshotBacktraceFrame
    → List SnapshotFrameRecord
    → BTreeMap FrameId SnapshotBacktraceFrame
collect_frame_states m [] = m
collect_frame_states m (r ∷ rs) = collect_frame_states (insert r.frame_id r.frame m) rs

-- The stream goes on with new variables, or has ended.
pub data Next : Type 0 where
  go_on : Stream → Next
  ended : Next

module _ (snapshot_id : ℤ) where
  abbrev pub update_of : ℕ → ℕ → Bool → List SnapshotFrameRecord → SnapshotSymbolicationUpdate
  update_of total completed done frames = record {
    snapshot_id = snapshot_id;
    total_frames = total % 2 ^ 32;
    completed_frames = completed % 2 ^ 32;
    done = done;
    updated_frames = frames;
  }

  -- The answer for a snapshot that has no stream.
  abbrev pub unknown_update : SnapshotSymbolicationUpdate
  unknown_update = update_of 0 0 true []

  -- The end of a round.
  unfoldable pub after_round : List SnapshotFrameRecord → ℕ → Next
  unfolding completed_count collect_frame_states
  after_round frames unchanged_ticks =
      if completed_count frames == length frames
      then ended
      else go_on (record {
        previous_frames = collect_frame_states [] frames;
        previous_completed = completed_count frames;
        unchanged_ticks = unchanged_ticks;
      })

  abbrev pub deliver : Bool → SnapshotSymbolicationUpdate → List SnapshotSymbolicationUpdate
  deliver delivered update = if delivered then update ∷ [] else []

  -- A round: the updates delivered, and how the stream goes on.
  unfoldable pub stream_round :
      SnapshotBacktraceTable → Bool → Stream → List SnapshotSymbolicationUpdate × Next
  unfolding after_round updated_frames forced_updates
  stream_round table delivered s =
      let frames = table.frames in
      let total = length frames in
      let completed = completed_count frames in
      let updated = updated_frames s.previous_frames frames in
      let unchanged = min (s.unchanged_ticks + 1) (2 ^ 32 - 1) in
      if not (is_nil_frames updated) || not (completed == s.previous_completed)
      then (
        deliver delivered (update_of total completed (completed == total) updated),
        (if delivered then after_round frames 0 else ended),
      )
      else if leb stall_ticks_limit unchanged
      then (deliver delivered (update_of total total true (forced_updates frames)), ended)
      else ([], after_round frames unchanged)

  abbrev pub then_deliver :
      List SnapshotSymbolicationUpdate
      → List SnapshotSymbolicationUpdate × Next
      → List SnapshotSymbolicationUpdate × Next
  then_deliver updates (more, next) = (updates ++ more, next)

  -- Rounds one after another, until the stream ends.
  unfoldable pub stream_rounds :
      List (SnapshotBacktraceTable × Bool) → Stream → List SnapshotSymbolicationUpdate × Next
  unfolding stream_round
  stream_rounds [] s = ([], go_on s)
  stream_rounds ((table, delivered) ∷ rounds) s =
      let (updates, next) = stream_round table delivered s in
      elim next [
        | go_on s' ↦ then_deliver updates (stream_rounds rounds s')
        | ended ↦ (updates, ended)
      ]

  module _ {R : Type 0} (to_string : SnapshotCutResponse → Option String)
      (from_str : String → Option SnapshotCutResponse) where
    -- The state after the rounds: each of them refreshes the cached snapshot.
    unfoldable pub rounds_state :
        List (SnapshotBacktraceTable × Bool) → Stream → ServerState R → ServerState R
    unfolding stream_round refresh_cached_snapshot_from_table
    rounds_state [] stream s = s
    rounds_state ((table, delivered) ∷ rounds) stream s =
        let refreshed = refresh_cached_snapshot_from_table to_string from_str snapshot_id table s in
        elim ((stream_round table delivered stream).1) [
          | go_on stream' ↦ rounds_state rounds stream' refreshed
          | ended ↦ refreshed
        ]

    -- The whole task, from the state of the server on.
    unfoldable pub symbolication_stream :
        List (SnapshotBacktraceTable × Bool)
        → Bool
        → ServerState R
        → List SnapshotSymbolicationUpdate × Next × ServerState R
    unfolding stream_rounds rounds_state
    symbolication_stream rounds delivered s = elim (get snapshot_id s.snapshot_streams) [
      | none ↦ (deliver delivered unknown_update, ended, s)
      | some stream ↦
          let (updates, next) = stream_rounds rounds new_stream in
          (updates, next, rounds_state rounds new_stream s)
    ]
