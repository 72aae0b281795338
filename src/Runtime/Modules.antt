-- ===== src/Runtime/Modules.antt =====
-- crates/moire-runtime/src/lib.rs: the process-wide table of modules, `remap_and_register_backtrace`
-- and the backtrace records. The statics are a state that is passed on.
pub mod Registered
pub mod Remapped
use peeps.Prelude.{
  ℕ, ◌+◌, Bool, true, false, Option, none, some, List, [], ◌∷◌, String, nat_ord, string_ord,
  pair_ord, eqb, ltb, ◌==◌, ◌&&◌, if◌then◌else◌, Result, ok, err, ◌>>=◌, map_err, map_ok,
  saturating_add, hexadecimal, concat,
}
use peeps.BTreeMap.{BTreeMap, get, insert, retain, values}
use peeps.Trace.{
  InvariantError, ModuleId, RuntimeBase, RelPc, BacktraceId, FrameKey, BacktraceRecord,
  js_safe_int_max_u64, next, new_rel_pc, new_backtrace_record,
}
use peeps.Capture.{CapturedModule, CapturedBacktrace}
use peeps.Wire.Messages.{ModuleManifestEntry, ModuleIdentity, debug_id}

abbrev pub ModuleKey : Type 0
ModuleKey = RuntimeBase × String

pub record ModuleState : Type 0 where
  pub revision : ℕ
  pub by_key : BTreeMap ModuleKey ModuleId
  pub by_id : BTreeMap ModuleId ModuleManifestEntry

-- The table, beside the counter that `ModuleId::next` draws from.
pub record Registry : Type 0 where
  pub modules : ModuleState
  pub counter : ℕ

-- A failed `expect` or an explicit `panic!`.
pub data RegistryPanic : Type 0 where
  module_id_invalid rel_pc_invalid record_invalid : InvariantError → RegistryPanic
  missing_local_module : ModuleId → RegistryPanic
  conflicting_record : BacktraceId → RegistryPanic

unfoldable pub module_identity_for : String → RuntimeBase → ModuleIdentity
module_identity_for path runtime_base =
    debug_id (concat "runtime:" (concat (hexadecimal runtime_base) (concat ":" path)))

unfoldable pub remap_frames :
    BTreeMap ModuleId ModuleId → List FrameKey → Result RegistryPanic (List FrameKey)
remap_frames local [] = ok []
remap_frames local (f ∷ fs) =
    let rest = remap_frames local fs in
    elim (get f.module_id local) [
      | none ↦ err (missing_local_module f.module_id)
      | some module_id ↦ map_err rel_pc_invalid (new_rel_pc f.rel_pc) >>= λ rel_pc.
          map_ok (λ frames. record { module_id = module_id; rel_pc = rel_pc } ∷ frames) rest
    ]

-- `prefix` is the process's prefix of identifiers, `arch` is `std::env::consts::ARCH`.
module _ (prefix : ℕ) (arch : String) where
  abbrev pub manifest_entry : ModuleKey → ModuleId → ModuleManifestEntry
  manifest_entry key global = record {
    module_id = global;
    module_path = key.1;
    runtime_base = key.0;
    identity = module_identity_for key.1 key.0;
    arch = arch;
  }

  abbrev pub add_module : ModuleKey → ModuleId → ModuleState → ModuleState
  add_module key global modules = record {
    revision = saturating_add modules.revision 1;
    by_key = insert key global modules.by_key;
    by_id = insert global (manifest_entry key global) modules.by_id;
  }

  -- A new module, with what `ModuleId::next` gave.
  abbrev pub register_new :
      ModuleKey
      → Registry
      → Result InvariantError ModuleId × ℕ
      → Result RegistryPanic (ModuleId × Registry)
  register_new key g (err e, counter) = err (module_id_invalid e)
  register_new key g (ok global, counter) =
      ok (global, record { modules = add_module key global g.modules; counter = counter })

  -- The module's identifier in the table, which it enters if it is new.
  unfoldable pub global_for : ModuleKey → Registry → Result RegistryPanic (ModuleId × Registry)
  global_for key g = elim (get key g.modules.by_key) [
    | none ↦ register_new key g (next "module_id" js_safe_int_max_u64 prefix g.counter)
    | some existing ↦ ok (existing, g)
  ]

  -- The loop over the captured modules, with `local_to_global` so far.
  unfoldable pub register_modules :
      List CapturedModule
      → BTreeMap ModuleId ModuleId
      → Registry
      → Result RegistryPanic (BTreeMap ModuleId ModuleId × Registry)
  unfolding global_for
  register_modules [] local g = ok (local, g)
  register_modules (m ∷ ms) local g = do
    found ← global_for (m.runtime_base, m.path) g
    register_modules ms (insert m.id found.0 local) found.1

  unfoldable pub remap_and_register_backtrace :
      CapturedBacktrace → Registry → Result RegistryPanic (BacktraceRecord × Registry)
  unfolding register_modules remap_frames
  remap_and_register_backtrace captured g = do
    registered ← register_modules captured.modules [] g
    frames ← remap_frames registered.0 captured.backtrace.frames
    r ← map_err record_invalid (new_backtrace_record captured.backtrace.id frames)
    ok (r, registered.1)

-- The revision, and the entries in the order of their identifiers.
unfoldable pub module_manifest_snapshot : Registry → ℕ × List ModuleManifestEntry
module_manifest_snapshot g = (g.modules.revision, values g.modules.by_id)

-- `==` of two lists of frames.
unfoldable pub same_frames : List FrameKey → List FrameKey → Bool
same_frames [] [] = true
same_frames [] (g ∷ gs) = false
same_frames (f ∷ fs) [] = false
same_frames (f ∷ fs) (g ∷ gs) =
    f.module_id == g.module_id && f.rel_pc == g.rel_pc && same_frames fs gs

abbrev pub Records : Type 0
Records = BTreeMap BacktraceId BacktraceRecord

unfoldable pub remember_backtrace_record : BacktraceRecord → Records → Result RegistryPanic Records
unfolding same_frames
remember_backtrace_record r records = elim (get r.id records) [
  | none ↦ ok (insert r.id r records)
  | some existing ↦
      if eqb existing.id r.id && same_frames existing.frames r.frames
      then ok records
      else err (conflicting_record r.id)
]

-- Whether an identifier is above the last one sent.
abbrev pub is_after : Option BacktraceId → BacktraceId → Bool
is_after none id = true
is_after (some last) id = ltb last id

unfoldable pub backtrace_records_after : Option BacktraceId → Records → List BacktraceRecord
backtrace_records_after last records = values (retain (λ id _. is_after last id) records)
