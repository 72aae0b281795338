-- ===== src/Mcp/Frames.antt =====
-- crates/moire-web/src/mcp/mod.rs: which frames of a backtrace are shown. `HashMap` is the map in
-- key order; nothing here reads its order.
pub mod Selection
use Prim.Native.Char.{Char, code}
use Prim.Native.String
use peeps.Prelude.{
  ℕ, zero, suc, Bool, true, false, Option, none, some, List, [], ◌∷◌, ◌++◌, drop, length, String,
  nat_ord, string_ord, eqb, leb, ◌==◌, ◌||◌, ◌&&◌, not, if◌then◌else◌, Result, ok, err, ◌>>=◌, trim,
  is_empty, is_ascii_alphabetic, is_ascii_alphanumeric, is_some_and, contains,
}
use peeps.BTreeMap.{BTreeMap, get, insert}
use peeps.Trace.{BacktraceId, FrameId}
use peeps.Types.{Entity}
use peeps.Types.Bodies.{EntityBody, future}
use peeps.Types.Snapshot.{
  SnapshotBacktraceFrame, resolved, unresolved, SnapshotBacktrace, SnapshotFrameRecord,
}

abbrev pub is_nil : {A : Type 0} → List A → Bool
is_nil [] = true
is_nil (a ∷ l) = false

abbrev pub BacktraceIndex : Type 0
BacktraceIndex = BTreeMap BacktraceId SnapshotBacktrace

abbrev pub FrameCatalog : Type 0
FrameCatalog = BTreeMap FrameId SnapshotBacktraceFrame

-- `collect` into a map: of two entries with one key the later stays.
unfoldable pub collect_backtraces : BacktraceIndex → List SnapshotBacktrace → BacktraceIndex
collect_backtraces index [] = index
collect_backtraces index (bt ∷ bts) = collect_backtraces (insert bt.backtrace_id bt index) bts

unfoldable pub backtrace_index : List SnapshotBacktrace → BacktraceIndex
unfolding collect_backtraces
backtrace_index = collect_backtraces []

unfoldable pub collect_frames : FrameCatalog → List SnapshotFrameRecord → FrameCatalog
collect_frames catalog [] = catalog
collect_frames catalog (r ∷ rs) = collect_frames (insert r.frame_id r.frame catalog) rs

unfoldable pub frame_catalog : List SnapshotFrameRecord → FrameCatalog
unfolding collect_frames
frame_catalog = collect_frames []

abbrev pub system_crates : List String
system_crates =
    "std" ∷ "core" ∷ "alloc" ∷ "tokio" ∷ "tokio_util" ∷ "futures" ∷ "futures_core" ∷ "futures_util"
    ∷ "moire" ∷ "moire_trace_capture" ∷ "moire_runtime" ∷ "moire_tokio" ∷ []

unfoldable pub is_system_crate : String → Bool
is_system_crate krate = contains krate system_crates

-- The loop over `<`, blanks, `&` and `*`.
unfoldable pub skip_markers : String → String
skip_markers String.[] = String.[]
skip_markers (String.◌∷◌ c s) =
    let rest = skip_markers s in
    if code c == b'<' || code c == b' ' || code c == b'&' || code c == b'*'
    then rest
    else String.◌∷◌ c s

-- The characters of a name after its first.
unfoldable pub name_rest : String → String
name_rest String.[] = String.[]
name_rest (String.◌∷◌ c s) =
    let rest = name_rest s in
    if code c == b'_' || is_ascii_alphanumeric (code c) then String.◌∷◌ c rest else String.[]

unfoldable pub leading_name : String → Option String
unfolding name_rest
leading_name String.[] = none
leading_name (String.◌∷◌ c s) =
    if code c == b'_' || is_ascii_alphabetic (code c)
    then some (String.◌∷◌ c (name_rest s))
    else none

unfoldable pub crate_from_function_name : String → Option String
unfolding skip_markers leading_name
crate_from_function_name function_name =
    let trimmed = trim function_name in
    if is_empty trimmed then none else leading_name (skip_markers trimmed)

unfoldable pub frame_start_index : EntityBody → ℕ
frame_start_index (future (some skip)) = skip
frame_start_index body = 0

abbrev pub frame_start_index_for_entity : Entity → ℕ
frame_start_index_for_entity entity = frame_start_index entity.body

-- Whether a frame of the catalogue is resolved, and to a function outside the system's crates.
unfoldable pub is_resolved_frame : SnapshotBacktraceFrame → Bool
is_resolved_frame (resolved r) = true
is_resolved_frame (unresolved u) = false

unfoldable pub is_application_frame : SnapshotBacktraceFrame → Bool
unfolding is_system_crate crate_from_function_name
is_application_frame (resolved r) =
    not (is_some_and is_system_crate (crate_from_function_name r.function_name))
is_application_frame (unresolved u) = false

-- The frames of the first loop: those for which a test holds of the frame in the catalogue.
unfoldable pub frames_that :
    (SnapshotBacktraceFrame → Bool) → FrameCatalog → List FrameId → List FrameId
frames_that test catalog [] = []
frames_that test catalog (id ∷ ids) =
    let rest = frames_that test catalog ids in
    if is_some_and test (get id catalog) then id ∷ rest else rest

-- One of the three loops that fill `out`: an error is its early return.
unfoldable pub fill : ℕ → List FrameId → List FrameId → Result (List FrameId) (List FrameId)
fill frame_count [] out = ok out
fill frame_count (id ∷ ids) out =
    let grown = if contains id out then out else out ++ id ∷ [] in
    let rest = fill frame_count ids grown in
    if leb frame_count (length grown) then err grown else rest

abbrev pub returned : Result (List FrameId) (List FrameId) → List FrameId
returned (ok out) = out
returned (err out) = out

unfoldable pub select_frames_for_backtrace : SnapshotBacktrace → FrameCatalog → ℕ → ℕ → List FrameId
unfolding fill frames_that
select_frames_for_backtrace backtrace catalog app_skip_count frame_count =
    let ids = backtrace.frame_ids in
    if is_nil ids || frame_count == 0
    then []
    else returned (do
      application ←
          fill frame_count (drop app_skip_count (frames_that is_application_frame catalog ids)) []
      known ← fill frame_count (frames_that is_resolved_frame catalog ids) application
      fill frame_count ids known)

abbrev pub frames_of : Option SnapshotBacktrace → FrameCatalog → ℕ → ℕ → List FrameId
frames_of none catalog app_skip_count frame_count = []
frames_of (some backtrace) catalog app_skip_count frame_count =
    select_frames_for_backtrace backtrace catalog app_skip_count frame_count

unfoldable pub selected_frames_for_backtrace_id :
    BacktraceId → BacktraceIndex → FrameCatalog → ℕ → ℕ → List FrameId
unfolding select_frames_for_backtrace
selected_frames_for_backtrace_id id index catalog = frames_of (get id index) catalog

unfoldable pub selected_frames_for_entity :
    Entity → BacktraceIndex → FrameCatalog → ℕ → List FrameId
unfolding select_frames_for_backtrace frame_start_index
selected_frames_for_entity entity index catalog =
    frames_of (get entity.backtrace index) catalog (frame_start_index_for_entity entity)
