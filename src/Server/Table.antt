-- ===== src/Server/Table.antt =====
-- crates/moire-web/src/snapshot/table.rs: the frame catalogue of a snapshot. The rows are what the
-- database returns, and `resolve_source_path` is a parameter. The process-wide registry of frame
-- identifiers is a state that is passed on.
pub mod Merged
pub mod Registry
pub mod Interned
pub mod Rows
pub mod Loaded
use mathlib.Core.Option
use peeps.Prelude.{
  ℕ, ℤ, pos, negsuc, ◌+◌, ◌^◌, Bool, true, false, Option, none, some, List, [], ◌∷◌, ◌++◌, map,
  String, nat_ord, string_ord, pair_ord, eqb, ltb, leb, ◌==◌, ◌&&◌, not, if◌then◌else◌, Result, ok,
  err, ◌>>=◌, map_err,
}
use peeps.BTreeMap.{BTreeMap, get, insert}
use peeps.BTreeMap.Ascending.{and_then}
use peeps.Trace.{InvariantError, BacktraceId, FrameId, RelPc, js_safe_int_max_u64, next}
use peeps.Types.{ProcessId}
use peeps.Types.Snapshot.{
  SnapshotBacktraceFrame, resolved, unresolved, BacktraceFrameResolved, BacktraceFrameUnresolved,
  SnapshotBacktrace, SnapshotFrameRecord,
}
use peeps.Server.Snapshots.{SnapshotBacktraceTable}

pub record StoredBacktraceFrameRow : Type 0 where
  pub process_id : ProcessId
  pub frame_index : ℕ
  pub module_path : String
  pub module_identity : String
  pub rel_pc : RelPc

pub record SymbolicatedFrameRow : Type 0 where
  pub process_id : ProcessId
  pub frame_index : ℕ
  pub module_path : String
  pub rel_pc : RelPc
  pub status : String
  pub function_name : Option String
  pub source_file_path : Option String
  pub source_line : Option ℤ
  pub unresolved_reason : Option String

pub record BacktraceFrameBatch : Type 0 where
  pub backtrace_id : BacktraceId
  pub raw_rows : List StoredBacktraceFrameRow
  pub symbolicated_by_index : BTreeMap ℕ SymbolicatedFrameRow

-- The identity and the path of the module, and the address; the order is by field.
abbrev pub FrameDedupKey : Type 0
FrameDedupKey = String × (String × RelPc)

pub data TableError : Type 0 where
  missing_frame : FrameId → TableError
  conflicting_resolved : FrameDedupKey → TableError
  frame_id_collision : FrameId → FrameDedupKey → FrameDedupKey → TableError
  frame_id_invalid : InvariantError → TableError

unfoldable pub is_pending_frame : SnapshotBacktraceFrame → Bool
is_pending_frame (resolved r) = false
is_pending_frame (unresolved u) = eqb u.reason "symbolication pending"

unfoldable pub frame_resolution_rank : SnapshotBacktraceFrame → ℕ
unfolding is_pending_frame
frame_resolution_rank (resolved r) = 2
frame_resolution_rank (unresolved u) = if is_pending_frame (unresolved u) then 0 else 1

abbrev pub same_line : Option ℕ → Option ℕ → Bool
same_line none none = true
same_line none (some b) = false
same_line (some a) none = false
same_line (some a) (some b) = a == b

-- `==` of frames.
unfoldable pub same_frame : SnapshotBacktraceFrame → SnapshotBacktraceFrame → Bool
same_frame (resolved a) (resolved b) =
    eqb a.module_path b.module_path
    && eqb a.function_name b.function_name
    && eqb a.source_file b.source_file
    && same_line a.line b.line
same_frame (resolved a) (unresolved b) = false
same_frame (unresolved a) (resolved b) = false
same_frame (unresolved a) (unresolved b) =
    eqb a.module_path b.module_path && a.rel_pc == b.rel_pc && eqb a.reason b.reason

abbrev pub is_resolved : SnapshotBacktraceFrame → Bool
is_resolved (resolved r) = true
is_resolved (unresolved u) = false

unfoldable pub merge_frame_state :
    SnapshotBacktraceFrame
    → SnapshotBacktraceFrame
    → FrameDedupKey
    → Result TableError SnapshotBacktraceFrame
merge_frame_state existing incoming key =
    if same_frame existing incoming
    then ok existing
    else if is_resolved existing && is_resolved incoming
    then err (conflicting_resolved key)
    else if leb (frame_resolution_rank existing) (frame_resolution_rank incoming)
    then ok incoming
    else ok existing

-- `u32::try_from(line).ok()`.
abbrev pub u32_of : ℤ → Option ℕ
u32_of (pos n) = if ltb n (2 ^ 32) then some n else none
u32_of (negsuc n) = none

abbrev pub or_text : String → Option String → String
or_text text none = text
or_text text (some t) = t

module _ (resolve_source_path : String → String) where
  abbrev pub resolved_frame :
      SymbolicatedFrameRow → Option String → Option String → SnapshotBacktraceFrame
  resolved_frame sym (some function_name) (some source_file) = resolved (record {
    module_path = sym.module_path;
    function_name = function_name;
    source_file = resolve_source_path source_file;
    line = and_then u32_of sym.source_line;
  })
  resolved_frame sym function_name source_file = unresolved (record {
    module_path = sym.module_path;
    rel_pc = sym.rel_pc;
    reason = "resolved symbolication row missing function/source fields";
  })

  unfoldable pub frame_of_row :
      StoredBacktraceFrameRow → Option SymbolicatedFrameRow → SnapshotBacktraceFrame
  frame_of_row raw none = unresolved (record {
    module_path = raw.module_path;
    rel_pc = raw.rel_pc;
    reason = "symbolication pending";
  })
  frame_of_row raw (some sym) =
      if eqb sym.status "resolved"
      then resolved_frame sym sym.function_name sym.source_file_path
      else unresolved (record {
        module_path = sym.module_path;
        rel_pc = sym.rel_pc;
        reason = or_text "symbolication unresolved" sym.unresolved_reason;
      })

-- The maps of one table, beside the process's registry and its counter of identifiers.
pub record Catalog : Type 0 where
  pub frame_id_by_key : BTreeMap FrameDedupKey FrameId
  pub frame_by_id : BTreeMap FrameId SnapshotBacktraceFrame
  pub registry : BTreeMap FrameDedupKey FrameId
  pub counter : ℕ

-- The maps at the start of a load.
abbrev pub fresh_catalog : BTreeMap FrameDedupKey FrameId → ℕ → Catalog
fresh_catalog registry counter = record {
  frame_id_by_key = [];
  frame_by_id = [];
  registry = registry;
  counter = counter;
}

abbrev pub frame_record : FrameId × SnapshotBacktraceFrame → SnapshotFrameRecord
frame_record (id, frame) = record { frame_id = id; frame = frame }

-- The `find_map` over the keys.
unfoldable pub find_key : FrameId → BTreeMap FrameDedupKey FrameId → Option FrameDedupKey
find_key id [] = none
find_key id ((k, i) ∷ m) = if i == id then some k else find_key id m

abbrev source_of : FrameId → FrameDedupKey → FrameId × (String × RelPc)
source_of id (module_identity, (module_path, rel_pc)) = (id, (module_identity, rel_pc))

-- What the registry says of a raw identifier.
unfoldable pub lookup_frame_source_by_raw :
    ℕ → BTreeMap FrameDedupKey FrameId → Option (FrameId × (String × RelPc))
unfolding find_key
lookup_frame_source_by_raw raw_id registry =
    Option.map (source_of raw_id) (find_key raw_id registry)

-- A frame under a key that the table has.
unfoldable pub merge_known :
    FrameDedupKey
    → SnapshotBacktraceFrame
    → FrameId
    → Catalog
    → Result TableError (FrameId × Catalog)
merge_known key frame existing c = elim (get existing c.frame_by_id) [
  | none ↦ err (missing_frame existing)
  | some known ↦ merge_frame_state known frame key >>= λ merged.
      ok (existing, record c { frame_by_id = insert existing merged c.frame_by_id })
]

abbrev pub add_frame :
    FrameDedupKey → SnapshotBacktraceFrame → FrameId → Catalog → FrameId × Catalog
add_frame key frame assigned c = (
  assigned,
  record c {
    frame_id_by_key = insert key assigned c.frame_id_by_key;
    frame_by_id = insert assigned frame c.frame_by_id;
  },
)

-- A frame under a key that is new to the table, with its identifier.
unfoldable pub add_new :
    FrameDedupKey
    → SnapshotBacktraceFrame
    → FrameId
    → Catalog
    → Result TableError (FrameId × Catalog)
unfolding find_key
add_new key frame assigned c = elim (find_key assigned c.frame_id_by_key) [
  | none ↦ ok (add_frame key frame assigned c)
  | some existing_key ↦
      if eqb existing_key key
      then ok (add_frame key frame assigned c)
      else err (frame_id_collision assigned existing_key key)
]

module _ (prefix : ℕ) where
  abbrev pub draw_frame_id :
      FrameDedupKey
      → Catalog
      → Result InvariantError FrameId × ℕ
      → Result TableError (FrameId × Catalog)
  draw_frame_id key c (err e, counter) = err (frame_id_invalid e)
  draw_frame_id key c (ok id, counter) =
      ok (id, record c { registry = insert key id c.registry; counter = counter })

  unfoldable pub stable_frame_id : FrameDedupKey → Catalog → Result TableError (FrameId × Catalog)
  stable_frame_id key c = elim (get key c.registry) [
    | none ↦ draw_frame_id key c (next "frame_id" js_safe_int_max_u64 prefix c.counter)
    | some existing ↦ ok (existing, c)
  ]

  unfoldable pub intern_frame :
      FrameDedupKey → SnapshotBacktraceFrame → Catalog → Result TableError (FrameId × Catalog)
  unfolding merge_known stable_frame_id add_new
  intern_frame key frame c = elim (get key c.frame_id_by_key) [
    | none ↦ stable_frame_id key c >>= λ r. add_new key frame r.0 r.1
    | some existing ↦ merge_known key frame existing c
  ]

  module _ (resolve_source_path : String → String) where
    unfoldable pub intern_rows :
        BTreeMap ℕ SymbolicatedFrameRow
        → List StoredBacktraceFrameRow
        → Catalog
        → Result TableError (List FrameId × Catalog)
    unfolding intern_frame frame_of_row
    intern_rows symbolicated [] c = ok ([], c)
    intern_rows symbolicated (raw ∷ raws) c = do
      first ←
          intern_frame (raw.module_identity, (raw.module_path, raw.rel_pc))
            (frame_of_row resolve_source_path raw (get raw.frame_index symbolicated)) c
      rest ← intern_rows symbolicated raws first.1
      ok (first.0 ∷ rest.0, rest.1)

    unfoldable pub intern_batches :
        List BacktraceFrameBatch → Catalog → Result TableError (List SnapshotBacktrace × Catalog)
    unfolding intern_rows
    intern_batches [] c = ok ([], c)
    intern_batches (batch ∷ batches) c = do
      first ← intern_rows batch.symbolicated_by_index batch.raw_rows c
      rest ← intern_batches batches first.1
      ok (record { backtrace_id = batch.backtrace_id; frame_ids = first.0 } ∷ rest.0, rest.1)

    -- The table, beside the registry and the counter that it leaves.
    unfoldable pub load_snapshot_backtrace_table :
        List BacktraceFrameBatch
        → BTreeMap FrameDedupKey FrameId
        → ℕ
        → Result TableError (SnapshotBacktraceTable × Catalog)
    unfolding intern_batches
    load_snapshot_backtrace_table batches registry counter = do
      done ← intern_batches batches (fresh_catalog registry counter)
      ok (record { backtraces = done.0; frames = map frame_record done.1.frame_by_id }, done.1)
