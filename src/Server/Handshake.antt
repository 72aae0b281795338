-- ===== src/Server/Handshake.antt =====
-- crates/moire-web/src/tcp/mod.rs `validate_handshake`, and crates/moire-web/src/db/persist.rs
-- `into_stored_module_manifest` and `backtrace_frames_for_store`.
pub mod Validation
pub mod Frames
use peeps.Prelude.{
  ℕ, ◌+◌, ◌%◌, ◌^◌, ◌==◌, Bool, true, false, none, some, List, [], ◌∷◌, map, String, nat_ord, not,
  Result, ok, err, ◌>>◌, map_ok, is_blank, is_absolute, concat,
}
use peeps.BTreeMap.{BTreeMap, get, insert}
use peeps.Trace.{ModuleId, RelPc, FrameKey, BacktraceRecord}
use peeps.Wire.Messages.{ModuleIdentity, build_id, debug_id, ModuleManifestEntry, Handshake}
use peeps.Server.{StoredModuleManifestEntry}

-- The errors of the source are texts; a number is the index into the manifest.
pub data HandshakeError : Type 0 where
  empty_process_id empty_process_name : HandshakeError
  empty_module_path relative_module_path zero_runtime_base empty_arch : ℕ → HandshakeError
  empty_build_id empty_debug_id : ℕ → HandshakeError

abbrev pub ensure : HandshakeError → (refused : Bool) → Result HandshakeError (Unit {0})
ensure e true = err e
ensure e false = ok tt

unfoldable pub validate_identity : ℕ → ModuleIdentity → Result HandshakeError (Unit {0})
validate_identity index (build_id id) = ensure (empty_build_id index) (is_blank id)
validate_identity index (debug_id id) = ensure (empty_debug_id index) (is_blank id)

unfoldable pub validate_module : ℕ → ModuleManifestEntry → Result HandshakeError (Unit {0})
unfolding validate_identity
validate_module index m = do
  ensure (empty_module_path index) (is_blank m.module_path)
  ensure (relative_module_path index) (not (is_absolute m.module_path))
  ensure (zero_runtime_base index) (m.runtime_base == 0)
  ensure (empty_arch index) (is_blank m.arch)
  validate_identity index m.identity

-- The loop over the manifest, from an index on.
unfoldable pub validate_modules : ℕ → List ModuleManifestEntry → Result HandshakeError (Unit {0})
unfolding validate_module
validate_modules index [] = ok tt
validate_modules index (m ∷ ms) = do validate_module index m; validate_modules (index + 1) ms

unfoldable pub validate_handshake : Handshake → Result HandshakeError (Unit {0})
unfolding validate_modules
validate_handshake h = do
  ensure empty_process_id (is_blank h.process_id)
  ensure empty_process_name (is_blank h.process_name)
  validate_modules 0 h.module_manifest

unfoldable pub module_identity_key : ModuleIdentity → String
module_identity_key (build_id id) = concat "build_id:" id
module_identity_key (debug_id id) = concat "debug_id:" id

unfoldable pub into_stored : ModuleManifestEntry → StoredModuleManifestEntry
unfolding module_identity_key
into_stored m = record {
  module_id = m.module_id;
  module_path = m.module_path;
  module_identity = module_identity_key m.identity;
  arch = m.arch;
  runtime_base = m.runtime_base;
}

unfoldable pub into_stored_module_manifest :
    List ModuleManifestEntry → List StoredModuleManifestEntry
unfolding into_stored
into_stored_module_manifest = map into_stored

pub record BacktraceFramePersist : Type 0 where
  pub frame_index : ℕ
  pub rel_pc : RelPc
  pub module_path : String
  pub module_identity : String

-- `collect` into a map: of several entries with one identifier the last stays.
unfoldable pub modules_by_id :
    List StoredModuleManifestEntry
    → BTreeMap ModuleId StoredModuleManifestEntry
    → BTreeMap ModuleId StoredModuleManifestEntry
modules_by_id [] m = m
modules_by_id (e ∷ es) m = modules_by_id es (insert e.module_id e m)

-- A frame that names a module outside the manifest.
pub data FrameError : Type 0 where
  unknown_module : ℕ → ModuleId → FrameError

abbrev pub stored_frame : ℕ → FrameKey → StoredModuleManifestEntry → BacktraceFramePersist
stored_frame index frame m = record {
  frame_index = index % 2 ^ 32;
  rel_pc = frame.rel_pc;
  module_path = m.module_path;
  module_identity = m.module_identity;
}

-- The loop over the frames, from an index on.
unfoldable pub store_frames :
    BTreeMap ModuleId StoredModuleManifestEntry
    → ℕ
    → List FrameKey
    → Result FrameError (List BacktraceFramePersist)
store_frames modules index [] = ok []
store_frames modules index (f ∷ fs) =
    let rest = store_frames modules (index + 1) fs in
    elim (get f.module_id modules) [
      | none ↦ err (unknown_module index f.module_id)
      | some m ↦ map_ok (λ frames. stored_frame index f m ∷ frames) rest
    ]

unfoldable pub backtrace_frames_for_store :
    List StoredModuleManifestEntry
    → BacktraceRecord
    → Result FrameError (List BacktraceFramePersist)
unfolding modules_by_id store_frames
backtrace_frames_for_store manifest record_ =
    store_frames (modules_by_id manifest []) 0 record_.frames
