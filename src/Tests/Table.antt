-- ===== src/Tests/Table.antt =====
-- Runs of crates/moire-web/src/snapshot/table.rs: two backtraces that share a frame.
use peeps.Prelude.{
  ℕ, ◌≡◌, refl, pos, none, some, List, [], ◌∷◌, map, String, eqb_iff, nat_ord, string_ord, pair_ord,
  ok, err, Result, arith, ◌⊎◌, true,
}
use peeps.BTreeMap.{BTreeMap, get}
use peeps.Trace.{FrameId, process_prefix_u16}
use peeps.Types.Snapshot.{SnapshotBacktraceFrame, resolved, unresolved}
use peeps.Server.Snapshots.{SnapshotBacktraceTable}
use peeps.Server.Table.{
  Catalog, FrameDedupKey, TableError, conflicting_resolved, BacktraceFrameBatch,
  StoredBacktraceFrameRow, SymbolicatedFrameRow, load_snapshot_backtrace_table, fresh_catalog,
  lookup_frame_source_by_raw, frame_resolution_rank, same_frame, merge_frame_state,
}
use peeps.Server.Table.Registry.{IsCatalog, lookup_frame_source_by_raw-registered}
use peeps.Server.Table.Rows.{Keeps}
use peeps.Server.Table.Loaded.{
  batch_resolves, AreBacktraces, IsClosed, load_snapshot_backtrace_table-IsClosed,
}

abbrev pending_main : SnapshotBacktraceFrame
pending_main =
    unresolved (record { module_path = "app"; rel_pc = 16; reason = "symbolication pending" })

abbrev found_main : SnapshotBacktraceFrame
found_main =
    resolved (record {
      module_path = "app";
      function_name = "main";
      source_file = "main.rs";
      line = some 3;
    })

abbrev raw_row : ℕ → ℕ → StoredBacktraceFrameRow
raw_row frame_index rel_pc = record {
  process_id = "PROCESS#1";
  frame_index = frame_index;
  module_path = "app";
  module_identity = "debug_id:a";
  rel_pc = rel_pc;
}

abbrev symbolicated_main : SymbolicatedFrameRow
symbolicated_main = record {
  process_id = "PROCESS#1";
  frame_index = 0;
  module_path = "app";
  rel_pc = 16;
  status = "resolved";
  function_name = some "main";
  source_file_path = some "main.rs";
  source_line = some (pos 3);
  unresolved_reason = none;
}

abbrev two_batches : List BacktraceFrameBatch
two_batches =
    record {
      backtrace_id = 1;
      raw_rows = raw_row 0 16 ∷ raw_row 1 32 ∷ [];
      symbolicated_by_index = [];
    }
    ∷ record {
      backtrace_id = 2;
      raw_rows = raw_row 0 16 ∷ [];
      symbolicated_by_index = (0, symbolicated_main) ∷ [];
    }
    ∷ []

abbrev same_path : String → String
same_path path = path

abbrev frames_of :
    Result TableError (SnapshotBacktraceTable × Catalog)
    → List (List FrameId) × List SnapshotBacktraceFrame
frames_of (err e) = ([], [])
frames_of (ok (table, c)) =
    (map (λ b. b.frame_ids) table.backtraces, map (λ r. r.frame) table.frames)

abbrev loaded : Result TableError (SnapshotBacktraceTable × Catalog)
loaded = load_snapshot_backtrace_table (process_prefix_u16 5 7) same_path two_batches [] 1

main_merged : merge_frame_state pending_main found_main ("debug_id:a", ("app", 16)) ≡ ok found_main
unfolding merge_frame_state same_frame frame_resolution_rank
main_merged = refl

none_registered-IsCatalog : IsCatalog (fresh_catalog [] 1)
unfolding get
none_registered-IsCatalog = record {
  kept = tt;
  listed = λ k i h. absurd (ground arith);
  drawn = λ k i h. absurd (ground arith);
  apart = λ k j i h e. absurd (ground arith);
  single = tt;
  started = omega arith;
}

load_snapshot_backtrace_table-IsClosed_example :
    ((table : SnapshotBacktraceTable) × (d : Catalog) × (loaded ≡ ok (table, d))
      × AreBacktraces d two_batches table.backtraces
      × IsClosed table
      × Keeps [] d.registry
      × IsCatalog (fresh_catalog d.registry d.counter))
    ⊎ ((key : FrameDedupKey) × (loaded ≡ err (conflicting_resolved key))
        × (batch_resolves same_path two_batches key ≡ true))
load_snapshot_backtrace_table-IsClosed_example =
    load_snapshot_backtrace_table-IsClosed 5 7 same_path two_batches [] 1 none_registered-IsCatalog
      (omega arith)

-- The second backtrace resolves the frame that both share.
frames_of-loaded :
    (frames_of loaded).1
    ≡ found_main
      ∷ unresolved (record { module_path = "app"; rel_pc = 32; reason = "symbolication pending" })
      ∷ []
unfolding load_snapshot_backtrace_table get peeps.Trace.next process_prefix_u16
    peeps.BTreeMap.insert merge_frame_state same_frame frame_resolution_rank
frames_of-loaded = refl

abbrev main_registered : BTreeMap FrameDedupKey FrameId
main_registered = (("debug_id:a", ("app", 16)), 274877906945) ∷ []

main_registered-IsCatalog : IsCatalog (fresh_catalog main_registered 2)
unfolding get
main_registered-IsCatalog = record {
  kept = tt;
  listed = λ k i h. absurd (ground arith);
  drawn = λ k i h. ground arith;
  apart = λ k j i h e.
      ground (arith, eqb_iff k ("debug_id:a", ("app", 16)), eqb_iff j ("debug_id:a", ("app", 16)));
  single = (refl, tt);
  started = omega arith;
}

lookup_frame_source_by_raw-registered_example :
    lookup_frame_source_by_raw 274877906945 main_registered
    ≡ some (274877906945, ("debug_id:a", 16))
unfolding get
lookup_frame_source_by_raw-registered_example =
    lookup_frame_source_by_raw-registered (fresh_catalog main_registered 2)
      main_registered-IsCatalog "debug_id:a" "app" 16 274877906945 refl
