-- ===== src/Runtime/Modules/Remapped.antt =====
-- A remapped backtrace names the same modules, by the identifiers of the table.
use mathlib.Core.Path.{subst}
use peeps.Prelude.{
  le→ltb, ℕ, suc, ◌+◌, ◌≤◌, ◌≡◌, refl, ◌∙◌, Bool, true, false, Option, none, some, List, [], ◌∷◌,
  String, nat_ord, eqb, ok, Result, arith, is_some, Option-cases, inl, inr, if◌then◌else◌, length,
  All,
}
use peeps.BTreeMap.{BTreeMap, get, insert}
use peeps.BTreeMap.Laws.{get-insert}
use peeps.Trace.{
  ModuleId, BacktraceId, FrameKey, BacktraceRecord, id_counter_max_u64, js_safe_int_max_u64,
  process_prefix_u16, new_rel_pc, new_backtrace_record,
}
use peeps.Capture.{CapturedModule}
use peeps.Wire.Messages.{ModuleManifestEntry}
use peeps.Runtime.Modules.{
  Registry, register_modules, remap_frames, remap_and_register_backtrace, RegistryPanic,
}
use peeps.Runtime.Modules.Registered.{
  IsEntry, IsRegistry, Grows, Grows-refl, Grows-trans, global_for-Registers,
}

-- The last captured module with an identifier.
abbrev pub last_local :
    ModuleId → List CapturedModule → Option CapturedModule → Option CapturedModule
last_local id [] found = found
last_local id (m ∷ ms) found = last_local id ms (if eqb id m.id then some m else found)

-- The entry of a module is in the table, under an identifier.
abbrev pub HasEntry : Registry → ModuleId → CapturedModule → Type 0
HasEntry g id m =
    (e : ModuleManifestEntry) × (get id g.modules.by_id ≡ some e)
    × IsEntry (m.runtime_base, m.path) e

-- `local_to_global` leads each module to its entry.
abbrev Leads : Registry → BTreeMap ModuleId ModuleId → (ModuleId → Option CapturedModule) → Type 0
Leads g local found =
    (id : ModuleId) (m : CapturedModule)
    → found id ≡ some m
    → (global : ModuleId) × (get id local ≡ some global) × HasEntry g global m

-- Frame by frame: the same address, in the module that the local identifier stood for.
abbrev pub AreRemapped : Registry → List CapturedModule → List FrameKey → List FrameKey → Type 0
AreRemapped g ms [] [] = Unit
AreRemapped g ms [] (f' ∷ fs') = ⊥
AreRemapped g ms (f ∷ fs) [] = ⊥
AreRemapped g ms (f ∷ fs) (f' ∷ fs') =
    ((m : CapturedModule) × (last_local f.module_id ms none ≡ some m)
      × HasEntry g f'.module_id m
      × (f'.rel_pc ≡ f.rel_pc))
    × AreRemapped g ms fs fs'

-- What the loop over the modules leaves.
record Looked (ms : List CapturedModule) (g : Registry) (found : ModuleId → Option CapturedModule)
    (r : Result RegistryPanic (BTreeMap ModuleId ModuleId × Registry)) : Type 0 where
  local : BTreeMap ModuleId ModuleId
  registry : Registry
  made : r ≡ ok (local, registry)
  consistent : IsRegistry registry
  grows : Grows g registry
  leads : Leads registry local (λ id. last_local id ms (found id))

insert-Leads :
    (g h : Registry) (m : CapturedModule) (global : ModuleId) (local : BTreeMap ModuleId ModuleId)
    (found : ModuleId → Option CapturedModule)
    → Grows g h
    → HasEntry h global m
    → Leads g local found
    → Leads h (insert m.id global local) (λ id. if eqb id m.id then some m else found id)
insert-Leads g h m global local found grows entry leads id n q =
    cases (eqb id m.id) (get-insert id m.id global local) q
  where
    cases :
        (b : Bool)
        → get id (insert m.id global local) ≡ (if b then some global else get id local)
        → (if b then some m else found id) ≡ some n
        → (i : ModuleId) × (get id (insert m.id global local) ≡ some i) × HasEntry h i n
    cases true e d = let same : m ≡ n = cc in (global, e, subst (HasEntry h global) same entry)
    cases false e d =
        let (i, there, entered) = leads id n d in
        let (old, known, is_entry) = entered in
        (i, e ∙ there, (old, grows.kept i old known, is_entry))

module _ (seed pid : ℕ) (arch : String) where
  register_modules-Looked :
      (ms : List CapturedModule) (local : BTreeMap ModuleId ModuleId) (g : Registry)
      (found : ModuleId → Option CapturedModule)
      → IsRegistry g
      → g.counter + length ms ≤ suc id_counter_max_u64
      → Leads g local found
      → Looked ms g found (register_modules (process_prefix_u16 seed pid) arch ms local g)
  unfolding register_modules
  register_modules-Looked [] local g found inv room leads = record {
    local = local;
    registry = g;
    made = refl;
    consistent = inv;
    grows = Grows-refl g;
    leads = leads;
  }
  register_modules-Looked (m ∷ ms) local g found inv room leads =
      let first = global_for-Registers seed pid arch (m.runtime_base, m.path) g inv (omega arith) in
      let rest =
        register_modules-Looked ms (insert m.id first.id local) first.registry
          (λ id. if eqb id m.id then some m else found id) first.consistent
          (omega (arith, first.counted))
          (insert-Leads g first.registry m first.id local found first.grows
            (first.entry, first.found, first.is_entry) leads) in
      record {
        local = rest.local;
        registry = rest.registry;
        made = rw (first.made, register_modules) rest.made;
        consistent = rest.consistent;
        grows = Grows-trans g first.registry rest.registry first.grows rest.grows;
        leads = rest.leads;
      }

remap_frames-AreRemapped :
    (g : Registry) (ms : List CapturedModule) (local : BTreeMap ModuleId ModuleId)
    → Leads g local (λ id. last_local id ms none)
    → (fs : List FrameKey)
    → All
        (λ (f : FrameKey).
          (is_some (last_local f.module_id ms none) ≡ true) × (f.rel_pc ≤ js_safe_int_max_u64))
        fs
    → (fs' : List FrameKey) × (remap_frames local fs ≡ ok fs')
      × (length fs' ≡ length fs)
      × AreRemapped g ms fs fs'
unfolding remap_frames new_rel_pc
remap_frames-AreRemapped g ms local leads [] h = ([], refl, refl, tt)
remap_frames-AreRemapped g ms local leads (f ∷ fs) (h, hs) =
    let (rest, made, n, good) = remap_frames-AreRemapped g ms local leads fs hs in
    elim (Option-cases (last_local f.module_id ms none)) [
      | inl gone ↦ absurd (let known = h.0 in cc)
      | inr (m, known) ↦
          let (global, there, entry) = leads f.module_id m known in
          (
            record { module_id = global; rel_pc = f.rel_pc } ∷ rest,
            rw (there, remap_frames, le→ltb js_safe_int_max_u64 f.rel_pc h.1, made) refl,
            omega (arith, n),
            ((m, known, entry, refl), good),
          )
    ]

-- While an identifier is left for each captured module: a capture whose frames name listed modules
-- at valid addresses, and that has a frame, is remapped. The record keeps the identifier, and frame
-- by frame the address; each frame names an entry with the base and the path of the last captured
-- module that has the frame's local identifier. The table stays consistent and only grows.
pub remap_and_register_backtrace-AreRemapped :
    (seed pid : ℕ) (arch : String) (id : BacktraceId) (f : FrameKey) (fs : List FrameKey)
    (ms : List CapturedModule) (g : Registry)
    → IsRegistry g
    → g.counter + length ms ≤ suc id_counter_max_u64
    → All
        (λ (f : FrameKey).
          (is_some (last_local f.module_id ms none) ≡ true) × (f.rel_pc ≤ js_safe_int_max_u64))
        (f ∷ fs)
    → (r : BacktraceRecord) × (h : Registry) × (remap_and_register_backtrace
          (process_prefix_u16 seed pid)
          arch
          (record { backtrace = record { id = id; frames = f ∷ fs }; modules = ms })
          g
        ≡ ok (r, h))
      × (r.id ≡ id)
      × AreRemapped h ms (f ∷ fs) r.frames
      × IsRegistry h
      × Grows g h
unfolding remap_and_register_backtrace new_backtrace_record
remap_and_register_backtrace-AreRemapped seed pid arch id f fs ms g inv room known =
    let looked =
      register_modules-Looked seed pid arch ms [] g (λ i. none) inv room (λ i m q. absurd (cc)) in
    let (frames, made, n, good) =
      remap_frames-AreRemapped looked.registry ms looked.local looked.leads (f ∷ fs) known in
    (
      record { id = id; frames = frames },
      looked.registry,
      rw (looked.made, remap_and_register_backtrace, made) (ground (arith, n)),
      refl,
      good,
      looked.consistent,
      looked.grows,
    )
