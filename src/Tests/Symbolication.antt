-- ===== src/Tests/Symbolication.antt =====
-- A run of crates/moire-web/src/api/snapshot.rs `snapshot_symbolication_ws_task`: a client that
-- knows one of two frames, while the other stays pending.
use peeps.Prelude.{pos, suc, refl, none, [], ◌∷◌, nat_ord}
use peeps.Types.Snapshot.{SnapshotBacktraceFrame, resolved, unresolved}
use peeps.Server.Snapshots.{SnapshotBacktraceTable}
use peeps.Server.Symbolication.{Stream, stall_ticks_limit, stream_rounds}
use peeps.Server.Symbolication.Client.{Frames}
use peeps.Server.Symbolication.Ended.{HasEnded, stream_rounds-HasEnded}
use peeps.Server.Symbolication.Rounds.{rounds_of}

abbrev known : SnapshotBacktraceFrame
known = resolved (record {
  module_path = "app";
  function_name = "app::main";
  source_file = "main.rs";
  line = none;
})

abbrev waiting : SnapshotBacktraceFrame
waiting = unresolved (record { module_path = "app"; rel_pc = 16; reason = "symbolication pending" })

abbrev table : SnapshotBacktraceTable
table = record {
  backtraces = [];
  frames = record { frame_id = 7; frame = known } ∷ record { frame_id = 9; frame = waiting } ∷ [];
}

abbrev client : Frames
client = (7, known) ∷ []

abbrev begun : Stream
begun = record { previous_frames = client; previous_completed = 1; unchanged_ticks = 0 }

stream_rounds-HasEnded_example :
    HasEnded table client (stream_rounds (pos 1) (rounds_of (suc stall_ticks_limit) table) begun)
stream_rounds-HasEnded_example =
    stream_rounds-HasEnded (pos 1) table client begun (refl, (refl, tt)) (λ id f h e. e)
