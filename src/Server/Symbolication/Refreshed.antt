-- ===== src/Server/Symbolication/Refreshed.antt =====
-- What a symbolication stream does to the state of the server.
use peeps.Prelude.{ℤ, Bool, none, some, List, [], ◌∷◌, int_ord}
use peeps.BTreeMap.{get}
use peeps.Types.Snapshot.{ConnectionId, SnapshotSymbolicationUpdate}
use peeps.Server.{ServerState}
use peeps.Server.Steps.{Outside, Reach, later, cache_refreshed}
use peeps.Server.Snapshots.{SnapshotBacktraceTable}
use peeps.Server.Snapshots.Taking.{refresh_cached_snapshot_from_table}
use peeps.Server.Symbolication.{
  Next, Stream, go_on, ended, new_stream, stream_round, rounds_state, symbolication_stream,
  stream_rounds, deliver, unknown_update,
}

module _ (out : Outside) {R : Type 0} (first : ConnectionId) (id : ℤ) where
  -- The rounds of a stream are steps of the server.
  rounds_state-Reach :
      (rounds : List (SnapshotBacktraceTable × Bool)) (stream : Stream) (s : ServerState R)
      → Reach out first s
      → Reach out first (rounds_state id out.to_string out.from_str rounds stream s)
  unfolding rounds_state
  rounds_state-Reach [] stream s r = r
  rounds_state-Reach ((table, delivered) ∷ rounds) stream s r =
      let refreshed : ServerState R =
        refresh_cached_snapshot_from_table out.to_string out.from_str id table s in
      let step : Reach out first refreshed = later r (cache_refreshed id table) in
      elim ((stream_round id table delivered stream).1)
        as (λ next. Reach out first (elim next [
          | go_on stream' ↦ rounds_state id out.to_string out.from_str rounds stream' refreshed
          | ended ↦ refreshed
        ])) [ go_on stream' ↦ rounds_state-Reach rounds stream' refreshed step | ended ↦ step ]

  -- From a state that the server reaches, a symbolication stream, whether its snapshot is known
  -- or not and whatever its rounds find, leaves a state that the server reaches.
  symbolication_stream-Reach :
      (rounds : List (SnapshotBacktraceTable × Bool)) (delivered : Bool) (s : ServerState R)
      → Reach out first s
      → Reach out first (symbolication_stream id out.to_string out.from_str rounds delivered s).2
  unfolding symbolication_stream
  symbolication_stream-Reach rounds delivered s r =
      elim (get id s.snapshot_streams)
        as (λ entry. Reach out first (
          (elim entry as (λ _. List SnapshotSymbolicationUpdate × Next × ServerState R) [
            | none ↦ (deliver id delivered (unknown_update id), ended, s)
            | some stream ↦ (
              (stream_rounds id rounds new_stream).0,
              (stream_rounds id rounds new_stream).1,
              rounds_state id out.to_string out.from_str rounds new_stream s,
            )
          ]).2)) [ none ↦ r | some stream ↦ rounds_state-Reach rounds new_stream s r ]
