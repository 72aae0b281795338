-- ===== src/Capture.antt =====
-- crates/moire-trace-capture/src/lib.rs: the walk over the frame pointers and the assembly of a
-- backtrace from the instruction pointers. The memory and `dladdr` are parameters.
pub mod Walk
pub mod Listed
pub mod Resolution
pub mod Success
use peeps.Prelude.{
  ℕ, zero, suc, ◌+◌, ◌-◌, ◌%◌, Bool, true, false, Option, none, some, List, [], ◌∷◌, ◌++◌, String,
  string_ord, nat_ord, pair_ord, ltb, leb, ◌==◌, not, ◌&&◌, ◌||◌, if◌then◌else◌, Result, ok, err,
  ◌>>=◌, map_err,
}
use peeps.BTreeMap.{BTreeMap, get, insert}
use peeps.Trace.{
  InvariantError, BacktraceId, ModuleId, ModulePath, RuntimeBase, FrameKey, BacktraceRecord,
  js_safe_int_max_u64, next, new_module_path, new_rel_pc, new_backtrace_record,
}

pub record CaptureOptions : Type 0 where
  pub max_frames : ℕ
  pub skip_frames : ℕ

pub record CapturedModule : Type 0 where
  pub id : ModuleId
  pub path : ModulePath
  pub runtime_base : RuntimeBase

pub record CapturedBacktrace : Type 0 where
  pub backtrace : BacktraceRecord
  pub modules : List CapturedModule

pub data CaptureError : Type 0 where
  unsupported_platform empty_backtrace : CaptureError
  missing_module_info missing_module_path zero_module_base : ℕ → CaptureError
  ip_before_module_base : ℕ → RuntimeBase → CaptureError
  invariant_violation : String → InvariantError → CaptureError

pub record RawModuleInfo : Type 0 where
  pub runtime_base : RuntimeBase
  pub path : String

-- One round of the loop of `collect_raw_ips`: the frames left to skip and to take, and the
-- instruction pointer that is pushed.
abbrev pub take_ip : ℕ → ℕ → ℕ → ℕ × ℕ × List ℕ
take_ip return_ip skip left =
    if return_ip == 0
    then (skip, left, [])
    else if ltb 0 skip
    then (skip - 1, left, [])
    else (skip, left - 1, return_ip ∷ [])

-- The loop of `collect_raw_ips`, on fuel: `left` is `max_frames - raw_ips.len()`, `word` the
-- machine word at an address. The alignment is 8 bytes.
unfoldable pub walk : ℕ → (ℕ → ℕ) → ℕ → ℕ → ℕ → Option (List ℕ)
walk zero word frame_ptr skip left = none
walk (suc fuel) word frame_ptr skip left =
    let next_frame_ptr = word frame_ptr in
    let (skip', left', pushed) = take_ip (word (frame_ptr + 8)) skip left in
    elim (frame_ptr == 0 || leb left 0 || not (frame_ptr % 8 == 0)) [
      | true ↦ some []
      | false ↦ elim (next_frame_ptr == 0 || leb next_frame_ptr frame_ptr) [
        | true ↦ some pushed
        | false ↦ elim (walk fuel word next_frame_ptr skip' left') [
          | none ↦ none
          | some ips ↦ some (pushed ++ ips)
        ]
      ]
    ]

-- `collect_raw_ips` from the frame pointer of the caller.
unfoldable pub collect_raw_ips : ℕ → (ℕ → ℕ) → CaptureOptions → ℕ → Option (List ℕ)
unfolding walk
collect_raw_ips fuel word options frame_ptr =
    walk fuel word frame_ptr options.skip_frames options.max_frames

-- The local variables of `capture_current_impl`, with the process-wide cache of `dladdr` results
-- and the counter of `ModuleId::next`.
pub record Captured : Type 0 where
  pub cache : BTreeMap ℕ RawModuleInfo
  pub counter : ℕ
  pub modules_by_key : BTreeMap (RuntimeBase × String) ModuleId
  pub modules : List CapturedModule
  pub frames : List FrameKey

-- `module_info_for_ip` with its cache; `resolve` is `resolve_module_info_for_ip`.
unfoldable pub module_info_for_ip :
    (ℕ → Result CaptureError RawModuleInfo)
    → Captured
    → ℕ
    → Result CaptureError (RawModuleInfo × Captured)
module_info_for_ip resolve c ip = elim (get ip c.cache) [
  | some info ↦ ok (info, c)
  | none ↦ do resolved ← resolve ip; ok (resolved, record c { cache = insert ip resolved c.cache })
]

-- The module of a key, new or known.
unfoldable pub module_for : ℕ → Captured → RawModuleInfo → Result CaptureError (ModuleId × Captured)
module_for prefix c info = elim (get (info.runtime_base, info.path) c.modules_by_key) [
  | some module_id ↦ ok (module_id, c)
  | none ↦
      let drawn = next "module_id" js_safe_int_max_u64 prefix c.counter in
      (do
        module_id ← map_err (invariant_violation "module_id") drawn.0
        module_path ← map_err (invariant_violation "module_path") (new_module_path info.path)
        ok (
          module_id,
          record c {
            counter = drawn.1;
            modules_by_key = insert (info.runtime_base, info.path) module_id c.modules_by_key;
            modules =
                c.modules
                ++ record { id = module_id; path = module_path; runtime_base = info.runtime_base }
                  ∷ [];
          },
        ))
]

-- The frame of an instruction pointer in a module.
unfoldable pub frame_in : Captured → ModuleId → RuntimeBase → ℕ → Result CaptureError Captured
frame_in c module_id runtime_base ip =
    if ltb ip runtime_base then err (ip_before_module_base ip runtime_base) else do
      rel_pc ← map_err (invariant_violation "rel_pc") (new_rel_pc (ip - runtime_base))
      ok (record c { frames = c.frames ++ record { module_id = module_id; rel_pc = rel_pc } ∷ [] })

-- One round of the loop of `capture_current_impl`.
unfoldable pub capture_ip :
    (ℕ → Result CaptureError RawModuleInfo) → ℕ → Captured → ℕ → Result CaptureError Captured
unfolding module_info_for_ip module_for frame_in
capture_ip resolve prefix c ip = do
  (info, looked) ← module_info_for_ip resolve c ip
  (module_id, known) ← module_for prefix looked info
  frame_in known module_id info.runtime_base ip

unfoldable pub capture_ips :
    (ℕ → Result CaptureError RawModuleInfo) → ℕ → Captured → List ℕ → Result CaptureError Captured
unfolding capture_ip
capture_ips resolve prefix c [] = ok c
capture_ips resolve prefix c (ip ∷ ips) = do
  c' ← capture_ip resolve prefix c ip
  capture_ips resolve prefix c' ips

-- `capture_current_impl` after `collect_raw_ips`, from the process-wide cache and counter.
unfoldable pub capture_current_impl :
    (ℕ → Result CaptureError RawModuleInfo)
    → ℕ
    → BTreeMap ℕ RawModuleInfo
    → ℕ
    → BacktraceId
    → List ℕ
    → Result CaptureError CapturedBacktrace
unfolding capture_ips
capture_current_impl resolve prefix cache counter backtrace_id [] = err empty_backtrace
capture_current_impl resolve prefix cache counter backtrace_id (ip ∷ ips) = do
  let start : Captured = record {
    cache = cache;
    counter = counter;
    modules_by_key = [];
    modules = [];
    frames = [];
  }
  c ← capture_ips resolve prefix start (ip ∷ ips)
  backtrace ←
      map_err (invariant_violation "backtrace_record") (new_backtrace_record backtrace_id c.frames)
  ok (record { backtrace = backtrace; modules = c.modules })
