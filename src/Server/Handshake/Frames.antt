-- ===== src/Server/Handshake/Frames.antt =====
-- The rows of a backtrace record under the manifest of its connection.
use peeps.Prelude.{
  ◌∙◌, ap, ℕ, ◌+◌, ◌%◌, ◌^◌, ◌≡◌, refl, true, Option, none, some, List, [], ◌∷◌, nat_ord, eqb, ok,
  All, is_some, Option-cases, inl, inr, if◌then◌else◌,
}
use peeps.BTreeMap.{BTreeMap, get, insert}
use peeps.BTreeMap.Laws.{get-insert}
use peeps.Trace.{ModuleId, FrameKey, BacktraceRecord}
use peeps.Server.{StoredModuleManifestEntry}
use peeps.Server.Handshake.{
  BacktraceFramePersist, modules_by_id, store_frames, stored_frame, backtrace_frames_for_store,
}

-- The last entry of a manifest with an identifier.
abbrev pub last_module :
    ModuleId
    → List StoredModuleManifestEntry
    → Option StoredModuleManifestEntry
    → Option StoredModuleManifestEntry
last_module id [] found = found
last_module id (e ∷ es) found = last_module id es (if eqb id e.module_id then some e else found)

-- The row of a frame at an index: the frame's address, and the path and the identity of a module.
abbrev pub IsRow : ℕ → FrameKey → StoredModuleManifestEntry → BacktraceFramePersist → Type 0
IsRow index f e row =
    (row.frame_index ≡ index % 2 ^ 32)
    × (row.rel_pc ≡ f.rel_pc)
    × (row.module_path ≡ e.module_path)
    × (row.module_identity ≡ e.module_identity)

-- The rows of frames from an index on, each of the last entry that has its module's identifier.
abbrev pub AreRows :
    List StoredModuleManifestEntry → ℕ → List FrameKey → List BacktraceFramePersist → Type 0
AreRows manifest index [] [] = Unit
AreRows manifest index [] (row ∷ rows) = ⊥
AreRows manifest index (f ∷ fs) [] = ⊥
AreRows manifest index (f ∷ fs) (row ∷ rows) =
    ((e : StoredModuleManifestEntry) × (last_module f.module_id manifest none ≡ some e)
      × IsRow index f e row)
    × AreRows manifest (index + 1) fs rows

get-modules_by_id :
    (id : ModuleId) (es : List StoredModuleManifestEntry)
    (m : BTreeMap ModuleId StoredModuleManifestEntry)
    → get id (modules_by_id es m) ≡ last_module id es (get id m)
unfolding modules_by_id
get-modules_by_id id [] m = refl
get-modules_by_id id (e ∷ es) m =
    get-modules_by_id id es (insert e.module_id e m)
    ∙ ap (last_module id es) (get-insert id e.module_id e m)

module _ (manifest : List StoredModuleManifestEntry)
    (modules : BTreeMap ModuleId StoredModuleManifestEntry)
    (same : (id : ModuleId) → get id modules ≡ last_module id manifest none) where
  store_frames-ok :
      (index : ℕ) (fs : List FrameKey)
      → All (λ (f : FrameKey). is_some (last_module f.module_id manifest none) ≡ true) fs
      → (rows : List BacktraceFramePersist) × (store_frames modules index fs ≡ ok rows)
        × AreRows manifest index fs rows
  unfolding store_frames
  store_frames-ok index [] h = ([], refl, tt)
  store_frames-ok index (f ∷ fs) h =
      let (rows, e, good) = store_frames-ok (index + 1) fs h.1 in
      elim (Option-cases (last_module f.module_id manifest none)) [
        | inl gone ↦ absurd (let here = h.0 in cc)
        | inr (m, found) ↦ (
          stored_frame index f m ∷ rows,
          rw (same f.module_id, found, e, store_frames) refl,
          ((m, found, (refl, refl, refl, refl)), good),
        )
      ]

-- If the manifest has an entry for the module of every frame, the record is stored as one row for
-- each frame, in order, numbered from 0 as a 32-bit number, with the frame's address and with the
-- path and the identity of the last entry for its module.
pub backtrace_frames_for_store-AreRows :
    (manifest : List StoredModuleManifestEntry) (r : BacktraceRecord)
    → All (λ (f : FrameKey). is_some (last_module f.module_id manifest none) ≡ true) r.frames
    → (rows : List BacktraceFramePersist) × (backtrace_frames_for_store manifest r ≡ ok rows)
      × AreRows manifest 0 r.frames rows
unfolding backtrace_frames_for_store get
backtrace_frames_for_store-AreRows manifest r known =
    store_frames-ok manifest (modules_by_id manifest []) (λ id. get-modules_by_id id manifest []) 0
      r.frames known
