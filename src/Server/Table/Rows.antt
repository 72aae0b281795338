-- ===== src/Server/Table/Rows.antt =====
-- The rows of one backtrace: which identifiers they get.
use peeps.Prelude.{
  Bool, false, ◌&&◌, ◌||◌, eqb, eqb_iff, ℕ, suc, ◌+◌, ◌≤◌, ◌≡◌, refl, true, some, List, [], ◌∷◌,
  String, length, nat_ord, string_ord, pair_ord, ok, err, Result, arith, inl, inr, ◌⊎◌,
}
use peeps.BTreeMap.{BTreeMap, get, contains_key}
use peeps.Trace.{FrameId, id_counter_max_u64, process_prefix_u16}
use peeps.Server.Table.{
  Catalog, FrameDedupKey, TableError, conflicting_resolved, is_resolved, StoredBacktraceFrameRow,
  SymbolicatedFrameRow, frame_of_row, intern_rows,
}
use peeps.Server.Table.Registry.{IsCatalog}
use peeps.Server.Table.Interned.{intern_frame-Interns}

abbrev pub key_of : StoredBacktraceFrameRow → FrameDedupKey
key_of raw = (raw.module_identity, (raw.module_path, raw.rel_pc))

-- Row by row: the identifier is the one registered for the row's key, and a frame of the table.
abbrev pub AreInterned : Catalog → List StoredBacktraceFrameRow → List FrameId → Type 0
AreInterned c [] [] = Unit
AreInterned c [] (id ∷ ids) = ⊥
AreInterned c (raw ∷ raws) [] = ⊥
AreInterned c (raw ∷ raws) (id ∷ ids) =
    ((get (key_of raw) c.registry ≡ some id) × (contains_key id c.frame_by_id ≡ true))
    × AreInterned c raws ids

-- Every identifier given stays.
abbrev pub Keeps : BTreeMap FrameDedupKey FrameId → BTreeMap FrameDedupKey FrameId → Type 0
Keeps before after =
    (j : FrameDedupKey) (i : FrameId) → get j before ≡ some i → get j after ≡ some i

-- What stays when the table grows.
pub record Extends (c d : Catalog) : Type 0 where
  pub consistent : IsCatalog d
  pub remembered :
      (j : FrameDedupKey) (i : FrameId) → get j c.registry ≡ some i → get j d.registry ≡ some i
  pub kept_frames :
      (i : FrameId) → contains_key i c.frame_by_id ≡ true → contains_key i d.frame_by_id ≡ true

pub Extends-trans : {b c d : Catalog} → Extends b c → Extends c d → Extends b d
Extends-trans {b} {c} {d} p q = record {
  consistent = q.consistent;
  remembered = λ j i h. q.remembered j i (p.remembered j i h);
  kept_frames = λ i h. q.kept_frames i (p.kept_frames i h);
}

pub AreInterned-Extends :
    {c d : Catalog}
    → Extends c d
    → (raws : List StoredBacktraceFrameRow) (ids : List FrameId) → AreInterned c raws ids
    → AreInterned d raws ids
AreInterned-Extends e [] [] h = tt
AreInterned-Extends e [] (id ∷ ids) h = h
AreInterned-Extends e (raw ∷ raws) [] h = h
AreInterned-Extends e (raw ∷ raws) (id ∷ ids) ((a, b), h) =
    ((e.remembered (key_of raw) id a, e.kept_frames id b), AreInterned-Extends e raws ids h)

-- A result that extends the catalogue, with a property, or a conflict at a key that is to blame.
abbrev pub Loads :
    {A : Type 0}
    → ℕ
    → (FrameDedupKey → Bool)
    → (Catalog → A → Type 0)
    → Catalog
    → Result TableError (A × Catalog)
    → Type 0
Loads {A} drawn blame P c r =
    ((a : A) × (d : Catalog) × (r ≡ ok (a, d))
      × P d a
      × Extends c d
      × (d.counter ≤ c.counter + drawn))
    ⊎ ((key : FrameDedupKey) × (r ≡ err (conflicting_resolved key)) × (blame key ≡ true))

-- Whether a row resolves the frame of a key.
abbrev pub resolves_key :
    (String → String)
    → BTreeMap ℕ SymbolicatedFrameRow
    → List StoredBacktraceFrameRow
    → FrameDedupKey
    → Bool
resolves_key resolve_source_path symbolicated [] key = false
resolves_key resolve_source_path symbolicated (raw ∷ raws) key =
    (eqb (key_of raw) key
      && is_resolved (frame_of_row resolve_source_path raw (get raw.frame_index symbolicated)))
    || resolves_key resolve_source_path symbolicated raws key

module _ (seed pid : ℕ) (resolve_source_path : String → String) where
  pub intern_rows-AreInterned :
      (symbolicated : BTreeMap ℕ SymbolicatedFrameRow) (raws : List StoredBacktraceFrameRow)
      (c : Catalog)
      → IsCatalog c
      → c.counter + length raws ≤ suc id_counter_max_u64
      → Loads
          (length raws)
          (resolves_key resolve_source_path symbolicated raws)
          (λ d ids. AreInterned d raws ids)
          c
          (intern_rows (process_prefix_u16 seed pid) resolve_source_path symbolicated raws c)
  unfolding intern_rows
  intern_rows-AreInterned symbolicated [] c inv room = inl (
    [],
    c,
    refl,
    tt,
    record { consistent = inv; remembered = λ j i h. h; kept_frames = λ i h. h },
    omega arith,
  )
  intern_rows-AreInterned symbolicated (raw ∷ raws) c inv room =
      elim (intern_frame-Interns seed pid c inv (omega arith) (key_of raw)
        (frame_of_row resolve_source_path raw (get raw.frame_index symbolicated))) [
          | inr (bad, resolution) ↦ inr (
            key_of raw,
            rw (bad, intern_rows) refl,
            ground (arith, eqb_iff (key_of raw) (key_of raw)),
          )
          | inl first ↦
              elim (intern_rows-AreInterned symbolicated raws first.catalog first.consistent
                (omega (arith, first.counted))) [
                  | inr (key, bad, blame) ↦
                      inr (key, rw (first.made, intern_rows, bad) refl, ground arith)
                  | inl (ids, d, made, interned, ext, counted) ↦ inl (
                    first.id ∷ ids,
                    d,
                    rw (first.made, intern_rows, made) refl,
                    (
                      (
                        ext.remembered (key_of raw) first.id first.stable,
                        ext.kept_frames first.id first.found,
                      ),
                      interned,
                    ),
                    record {
                      consistent = ext.consistent;
                      remembered = λ j i h. ext.remembered j i (first.remembered j i h);
                      kept_frames = λ i h. ext.kept_frames i (first.kept_frames i h);
                    },
                    omega (arith, first.counted),
                  )
                ]
        ]
