-- ===== src/Server/Table/Loaded.antt =====
-- The whole table: which identifiers its backtraces name.
use peeps.Prelude.{
  ℕ, suc, ◌+◌, ◌≤◌, ◌≡◌, refl, Bool, true, false, List, [], ◌∷◌, String, map, length, nat_ord,
  string_ord, pair_ord, ok, err, arith, inl, inr, ◌⊎◌, All, ◌==◌, ◌||◌, eqb_iff, ==_iff,
}
use peeps.BTreeMap.{BTreeMap, get, contains_key}
use peeps.Trace.{FrameId, id_counter_max_u64, process_prefix_u16}
use peeps.Types.Snapshot.{SnapshotBacktrace, SnapshotFrameRecord, SnapshotBacktraceFrame}
use peeps.Server.Snapshots.{SnapshotBacktraceTable}
use peeps.Server.Table.{
  Catalog, FrameDedupKey, conflicting_resolved, BacktraceFrameBatch, StoredBacktraceFrameRow,
  intern_batches, load_snapshot_backtrace_table, frame_record, fresh_catalog,
}
use peeps.Server.Table.Registry.{IsCatalog}
use peeps.Server.Table.Rows.{
  resolves_key, AreInterned, Keeps, Extends-trans, AreInterned-Extends, Loads,
  intern_rows-AreInterned,
}

abbrev pub row_count : List BacktraceFrameBatch → ℕ
row_count [] = 0
row_count (batch ∷ batches) = length batch.raw_rows + row_count batches

-- Batch by batch: the backtrace's identifier, with the identifiers of its rows.
abbrev pub AreBacktraces : Catalog → List BacktraceFrameBatch → List SnapshotBacktrace → Type 0
AreBacktraces c [] [] = Unit
AreBacktraces c [] (b ∷ bs) = ⊥
AreBacktraces c (batch ∷ batches) [] = ⊥
AreBacktraces c (batch ∷ batches) (b ∷ bs) =
    ((b.backtrace_id ≡ batch.backtrace_id) × AreInterned c batch.raw_rows b.frame_ids)
    × AreBacktraces c batches bs

abbrev pub lists_frame : FrameId → List SnapshotFrameRecord → Bool
lists_frame id [] = false
lists_frame id (r ∷ rs) = r.frame_id == id || lists_frame id rs

-- Every identifier of the table's backtraces has a frame in the table.
abbrev pub IsClosed : SnapshotBacktraceTable → Type 0
IsClosed table =
    All
      (λ (b : SnapshotBacktrace).
        All (λ (id : FrameId). lists_frame id table.frames ≡ true) b.frame_ids)
      table.backtraces

-- Whether a row of a batch resolves the frame of a key.
abbrev pub batch_resolves : (String → String) → List BacktraceFrameBatch → FrameDedupKey → Bool
batch_resolves resolve_source_path [] key = false
batch_resolves resolve_source_path (batch ∷ batches) key =
    resolves_key resolve_source_path batch.symbolicated_by_index batch.raw_rows key
    || batch_resolves resolve_source_path batches key

module _ (seed pid : ℕ) (resolve_source_path : String → String) where
  intern_batches-AreBacktraces :
      (batches : List BacktraceFrameBatch) (c : Catalog)
      → IsCatalog c
      → c.counter + row_count batches ≤ suc id_counter_max_u64
      → Loads
          (row_count batches)
          (batch_resolves resolve_source_path batches)
          (λ d bs. AreBacktraces d batches bs)
          c
          (intern_batches (process_prefix_u16 seed pid) resolve_source_path batches c)
  unfolding intern_batches
  intern_batches-AreBacktraces [] c inv room = inl (
    [],
    c,
    refl,
    tt,
    record { consistent = inv; remembered = λ j i h. h; kept_frames = λ i h. h },
    omega arith,
  )
  intern_batches-AreBacktraces (batch ∷ batches) c inv room =
      elim (intern_rows-AreInterned seed pid resolve_source_path batch.symbolicated_by_index
        batch.raw_rows c inv (omega arith)) [
          | inr (key, bad, blame) ↦ inr (key, rw (bad, intern_batches) refl, ground arith)
          | inl (ids, e, made, interned, ext, counted) ↦
              elim (intern_batches-AreBacktraces batches e ext.consistent (omega arith)) [
                | inr (key, bad, blame) ↦
                    inr (key, rw (made, intern_batches, bad) refl, ground arith)
                | inl (bs, d, made', rest, ext', counted') ↦ inl (
                  record { backtrace_id = batch.backtrace_id; frame_ids = ids } ∷ bs,
                  d,
                  rw (made, intern_batches, made') refl,
                  ((refl, AreInterned-Extends ext' batch.raw_rows ids interned), rest),
                  Extends-trans ext ext',
                  omega arith,
                )
              ]
        ]

lists_frame-map :
    (id : FrameId) (m : BTreeMap FrameId SnapshotBacktraceFrame)
    → contains_key id m ≡ true
    → lists_frame id (map frame_record m) ≡ true
unfolding get
lists_frame-map id [] h = absurd (ground arith)
lists_frame-map id ((i, f) ∷ m) h = ground (arith, lists_frame-map id m, eqb_iff id i, ==_iff i id)

AreInterned-listed :
    (d : Catalog) (raws : List StoredBacktraceFrameRow) (ids : List FrameId)
    → AreInterned d raws ids
    → All (λ (id : FrameId). lists_frame id (map frame_record d.frame_by_id) ≡ true) ids
AreInterned-listed d [] [] h = tt
AreInterned-listed d [] (id ∷ ids) h = absurd h
AreInterned-listed d (raw ∷ raws) [] h = tt
AreInterned-listed d (raw ∷ raws) (id ∷ ids) ((a, b), h) =
    (lists_frame-map id d.frame_by_id b, AreInterned-listed d raws ids h)

AreBacktraces-IsClosed :
    (d : Catalog) (batches : List BacktraceFrameBatch) (bs : List SnapshotBacktrace)
    → AreBacktraces d batches bs
    → IsClosed (record { backtraces = bs; frames = map frame_record d.frame_by_id })
AreBacktraces-IsClosed d [] [] h = tt
AreBacktraces-IsClosed d [] (b ∷ bs) h = absurd h
AreBacktraces-IsClosed d (batch ∷ batches) [] h = tt
AreBacktraces-IsClosed d (batch ∷ batches) (b ∷ bs) ((a, interned), h) = (
  AreInterned-listed d batch.raw_rows b.frame_ids interned,
  AreBacktraces-IsClosed d batches bs h,
)

-- While an identifier is left for each row, and the process's registry is consistent: loading a
-- table either reports a conflict, at a key whose frame some row of the batches resolves, or gives
-- the backtraces of the batches in order. Row by row they name the identifier registered for the row's key, and every identifier has a
-- frame in the table. The registry keeps its identifiers and stays consistent.
pub load_snapshot_backtrace_table-IsClosed :
    (seed pid : ℕ) (resolve_source_path : String → String) (batches : List BacktraceFrameBatch)
    (registry : BTreeMap FrameDedupKey FrameId) (counter : ℕ)
    → IsCatalog (fresh_catalog registry counter)
    → counter + row_count batches ≤ suc id_counter_max_u64
    → let r =
        load_snapshot_backtrace_table
          (process_prefix_u16 seed pid)
          resolve_source_path
          batches
          registry
          counter in
      ((table : SnapshotBacktraceTable) × (d : Catalog) × (r ≡ ok (table, d))
        × AreBacktraces d batches table.backtraces
        × IsClosed table
        × Keeps registry d.registry
        × IsCatalog (fresh_catalog d.registry d.counter))
      ⊎ ((key : FrameDedupKey) × (r ≡ err (conflicting_resolved key))
          × (batch_resolves resolve_source_path batches key ≡ true))
unfolding load_snapshot_backtrace_table get
load_snapshot_backtrace_table-IsClosed seed pid resolve_source_path batches registry counter inv
      room =
    elim (intern_batches-AreBacktraces seed pid resolve_source_path batches
      (fresh_catalog registry counter) inv room) [
        | inr (key, bad, blame) ↦ inr (key, rw (bad, load_snapshot_backtrace_table) refl, blame)
        | inl (bs, d, made, named, ext, counted) ↦
            let kept = ext.consistent in
            inl (
              record { backtraces = bs; frames = map frame_record d.frame_by_id },
              d,
              rw (made, load_snapshot_backtrace_table) refl,
              named,
              AreBacktraces-IsClosed d batches bs named,
              ext.remembered,
              record {
                kept = tt;
                listed = λ k i h. absurd (ground arith);
                drawn = kept.drawn;
                apart = kept.apart;
                single = kept.single;
                started = kept.started;
              },
            )
      ]
