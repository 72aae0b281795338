-- ===== src/Server/Table/Interned.antt =====
-- The identifiers of frames: stable, apart, and never dangling.
use peeps.Prelude.{
  ℕ, ◌+◌, ◌%◌, ◌^◌, ◌≤◌, ◌≡◌, refl, true, none, some, nat_ord, string_ord, pair_ord, eqb_iff, ok,
  err, Result, arith, Option-cases, inl, inr, ◌⊎◌, All-mono,
}
use peeps.BTreeMap.{BTreeMap, get, insert, contains_key}
use peeps.BTreeMap.Laws.{get-insert}
use peeps.BTreeMap.Each.{get-All, insert-All}
use peeps.Trace.{FrameId, id_counter_max_u64, process_prefix_u16}
use peeps.Trace.Layout.{next_layout}
use peeps.Types.Snapshot.{SnapshotBacktraceFrame}
use peeps.Server.Table.{
  Catalog, FrameDedupKey, TableError, conflicting_resolved, is_resolved, find_key, stable_frame_id,
  merge_known, add_frame, add_new, intern_frame,
}
use peeps.Server.Table.Registry.{IsCatalog, find_key-registry}
use peeps.Server.Table.Merged.{merge_frame_state-rank}

-- What interning a frame under a key leaves.
pub record Interns (key : FrameDedupKey) (c : Catalog) (r : Result TableError (FrameId × Catalog))
    : Type 0 where
  pub id : FrameId
  pub catalog : Catalog
  pub made : r ≡ ok (id, catalog)
  pub consistent : IsCatalog catalog
  pub found : contains_key id catalog.frame_by_id ≡ true
  pub stable : get key catalog.registry ≡ some id
  pub remembered :
      (j : FrameDedupKey) (i : FrameId)
      → get j c.registry ≡ some i
      → get j catalog.registry ≡ some i
  pub kept_frames :
      (i : FrameId)
      → contains_key i c.frame_by_id ≡ true
      → contains_key i catalog.frame_by_id ≡ true
  pub counted : catalog.counter ≤ c.counter + 1

module _ (c : Catalog) (inv : IsCatalog c) where
  -- A frame under a key that the table has.
  merge_known-Interns :
      (key : FrameDedupKey) (frame : SnapshotBacktraceFrame) (id : FrameId)
      → get key c.frame_id_by_key ≡ some id
      → Interns key c (merge_known key frame id c)
        ⊎ ((merge_known key frame id c ≡ err (conflicting_resolved key))
            × (is_resolved frame ≡ true))
  unfolding merge_known
  merge_known-Interns key frame id there = elim (Option-cases (get id c.frame_by_id)) [
    | inl gone ↦ absurd (let here = inv.listed key id there in cc)
    | inr (known, e) ↦ elim (merge_frame_state-rank known frame key) [
      | inl (bad, a, b, apart) ↦ inr (rw (e, merge_known, bad) refl, b)
      | inr (merged, good, which, up, over) ↦
          let still = λ (i : FrameId). get-insert i id merged c.frame_by_id in
          inl (record {
            id = id;
            catalog = record c { frame_by_id = insert id merged c.frame_by_id };
            made = rw (e, merge_known, good) refl;
            consistent = record {
              kept = inv.kept;
              listed = λ k i h. ground (arith, inv.listed k i, still i);
              drawn = inv.drawn;
              apart = inv.apart;
              single = inv.single;
              started = inv.started;
            };
            found = ground (arith, still id, eqb_iff id id);
            stable =
                get-All (λ (e : FrameDedupKey × FrameId). get e.0 c.registry ≡ some e.1) key id
                  c.frame_id_by_key inv.kept there;
            remembered = λ j i h. h;
            kept_frames = λ i h. ground (arith, still i);
            counted = omega arith;
          })
    ]
  ]

  -- A frame under a new key, once its identifier is in the registry.
  add_new-Interns :
      (key : FrameDedupKey) (frame : SnapshotBacktraceFrame) (id : FrameId)
      → get key c.registry ≡ some id
      → (r : Interns key c (add_new key frame id c)) × (r.catalog.counter ≤ c.counter)
  unfolding add_new
  add_new-Interns key frame id there =
      let added = add_frame key frame id c in
      (
        record {
          id = id;
          catalog = added.1;
          made = elim (Option-cases (find_key id c.frame_id_by_key)) [
            | inl e ↦ rw (e, add_new) refl
            | inr (k, e) ↦
                let same =
                  inv.apart k key id (find_key-registry c inv id k c.frame_id_by_key inv.kept e)
                    there in
                rw (e, add_new, (eqb_iff k key).1 same) refl
          ];
          consistent = record {
            kept =
                insert-All (λ (e : FrameDedupKey × FrameId). get e.0 c.registry ≡ some e.1) key id
                  c.frame_id_by_key there inv.kept;
            listed = λ k i h. ground (
              arith,
              inv.listed k i,
              get-insert k key id c.frame_id_by_key,
              get-insert i id frame c.frame_by_id,
              eqb_iff i id,
            );
            drawn = inv.drawn;
            apart = inv.apart;
            single = inv.single;
            started = inv.started;
          };
          found = ground (arith, get-insert id id frame c.frame_by_id, eqb_iff id id);
          stable = there;
          remembered = λ j i h. h;
          kept_frames = λ i h. ground (arith, get-insert i id frame c.frame_by_id);
          counted = omega arith;
        },
        omega arith,
      )

module _ (c : Catalog) (inv : IsCatalog c) where
  -- A key that the registry has not: it gets the identifier of the counter.
  drawn-IsCatalog :
      (key : FrameDedupKey) (id counter : ℕ)
      → get key c.registry ≡ none
      → id % 2 ^ 37 ≡ c.counter
      → counter ≡ c.counter + 1
      → IsCatalog (record c { registry = insert key id c.registry; counter = counter })
  drawn-IsCatalog key id counter new low next_one =
      let look = λ (k : FrameDedupKey). get-insert k key id c.registry in
      let still = λ (m : BTreeMap FrameDedupKey FrameId).
        All-mono (λ (e : FrameDedupKey × FrameId). get e.0 c.registry ≡ some e.1)
          (λ (e : FrameDedupKey × FrameId). get e.0 (insert key id c.registry) ≡ some e.1) m
          (λ e h. ground (arith, look e.0, eqb_iff e.0 key)) in
      record {
        kept = still c.frame_id_by_key inv.kept;
        single =
            insert-All
              (λ (e : FrameDedupKey × FrameId). get e.0 (insert key id c.registry) ≡ some e.1) key
              id c.registry (ground (arith, look key, eqb_iff key key))
              (still c.registry inv.single);
        listed = inv.listed;
        drawn = λ k i h. ground (arith, look k, inv.drawn k i);
        apart = λ k j i h e. ground (
          arith,
          look k,
          look j,
          inv.drawn k i,
          inv.drawn j i,
          inv.apart k j i,
          eqb_iff k key,
          eqb_iff j key,
        );
        started = omega arith;
      }

module _ (seed pid : ℕ) (c : Catalog) (inv : IsCatalog c) (room : c.counter ≤ id_counter_max_u64)
    (key : FrameDedupKey) (frame : SnapshotBacktraceFrame) where
  -- The step that adds a key, over the registry of the process.
  intern_new-Interns :
      get key c.frame_id_by_key ≡ none
      → Interns key c (intern_frame (process_prefix_u16 seed pid) key frame c)
  unfolding intern_frame stable_frame_id
  intern_new-Interns new = elim (Option-cases (get key c.registry)) [
    | inl e ↦
        let (id, drawn, high, low) = next_layout "frame_id" seed pid c.counter inv.started room in
        let counter = c.counter + 1 in
        let d = record c { registry = insert key id c.registry; counter = counter } in
        let still = λ (k : FrameDedupKey). get-insert k key id c.registry in
        let (done, kept) =
          add_new-Interns d (drawn-IsCatalog c inv key id counter e low refl) key frame id
            (ground (arith, still key, eqb_iff key key)) in
        record {
          id = done.id;
          catalog = done.catalog;
          made = rw (new, intern_frame, e, stable_frame_id, drawn) done.made;
          consistent = done.consistent;
          found = done.found;
          stable = done.stable;
          remembered = λ j i h. done.remembered j i (ground (arith, still j, eqb_iff j key));
          kept_frames = done.kept_frames;
          counted = omega arith;
        }
    | inr (id, e) ↦
        let (done, kept) = add_new-Interns c inv key frame id e in
        record {
          id = done.id;
          catalog = done.catalog;
          made = rw (new, intern_frame, e, stable_frame_id) done.made;
          consistent = done.consistent;
          found = done.found;
          stable = done.stable;
          remembered = done.remembered;
          kept_frames = done.kept_frames;
          counted = done.counted;
        }
  ]

  -- While an identifier is left, interning a frame ends with the frame's identifier, or with the
  -- conflict of two resolutions, and then it was resolved; the table never misses a frame and no
  -- two keys collide.
  pub intern_frame-Interns :
      Interns key c (intern_frame (process_prefix_u16 seed pid) key frame c)
      ⊎ ((intern_frame (process_prefix_u16 seed pid) key frame c ≡ err (conflicting_resolved key))
          × (is_resolved frame ≡ true))
  unfolding intern_frame
  intern_frame-Interns = elim (Option-cases (get key c.frame_id_by_key)) [
    | inl new ↦ inl (intern_new-Interns new)
    | inr (id, e) ↦ rw (e, intern_frame) (merge_known-Interns c inv key frame id e)
  ]
