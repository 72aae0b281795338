-- ===== src/Recording/Session.antt =====
-- crates/moire-web/src/recording/session.rs: `RecordingState`, `push_frame`, `frame_json_by_index`
-- and `recording_session_info`. The type of `f64` and its operations are a parameter; the JSON texts
-- are byte lists.
pub mod Window
pub mod Push
pub mod Transfer
use peeps.Prelude.{
  ℕ, ℤ, pos, ◌+◌, ◌-◌, ◌%◌, ◌^◌, Bool, true, false, Option, none, some, List, [], ◌∷◌, ◌++◌, String,
  map, length, get_elem?, ltb, is_none, if◌then◌else◌, Result, ok, err, ◌>>=◌, Ord, nat_ord,
}
use peeps.BTreeMap.{BTreeMap, get, insert}

-- What the module uses of `f64`.
pub record Float (F : Type 0) : Type 0 where
  pub zero : F
  pub add : F → F → F
  pub div : F → F → F
  pub gt : F → F → Bool
  pub of_u32 : ℕ → F

pub record StoredFrame (F : Type 0) : Type 0 where
  pub frame_index : ℕ
  pub captured_at_unix_ms : ℤ
  pub process_count : ℕ
  pub capture_duration_ms : F
  pub json : List ℕ

-- `stop_signal` is a handle of the asynchronous runtime that no function here reads.
pub record RecordingState (F : Type 0) : Type 0 where
  pub session_id : String
  pub interval_ms : ℕ
  pub started_at_unix_ms : ℤ
  pub stopped_at_unix_ms : Option ℤ
  pub frames : List (StoredFrame F)
  pub max_frames : ℕ
  pub max_memory_bytes : ℕ
  pub overflowed : Bool
  pub total_frames_captured : ℕ
  pub approx_memory_bytes : ℕ
  pub total_capture_ms : F
  pub max_capture_ms : F

pub data IndexError : Type 0 where
  removal_index_out_of_bounds : IndexError

pub record FrameSummary (F : Type 0) : Type 0 where
  pub frame_index : ℕ
  pub captured_at_unix_ms : ℤ
  pub process_count : ℕ
  pub capture_duration_ms : F

pub data RecordingSessionStatus : Type 0 where
  recording stopped : RecordingSessionStatus

pub record RecordingSessionInfo (F : Type 0) : Type 0 where
  pub session_id : String
  pub status : RecordingSessionStatus
  pub interval_ms : ℕ
  pub started_at_unix_ms : ℤ
  pub stopped_at_unix_ms : Option ℤ
  pub frame_count : ℕ
  pub max_frames : ℕ
  pub max_memory_bytes : ℕ
  pub overflowed : Bool
  pub approx_memory_bytes : ℕ
  pub avg_capture_ms : F
  pub max_capture_ms : F
  pub total_capture_ms : F
  pub frames : List (FrameSummary F)

module _ {F : Type 0} where
  -- The frames without the first, which `remove(0)` returns, and the state that says so.
  abbrev pub without_first :
      RecordingState F → StoredFrame F → List (StoredFrame F) → RecordingState F
  without_first rec dropped rest = record rec {
    overflowed = true;
    frames = rest;
    approx_memory_bytes = rec.approx_memory_bytes - length dropped.json;
  }

  -- The first `if`: `remove(0)` panics on an empty vector.
  unfoldable pub make_room : RecordingState F → Result IndexError (RecordingState F)
  make_room rec =
      if ltb (length rec.frames % 2 ^ 32) rec.max_frames then ok rec else elim rec.frames [
        | [] ↦ err removal_index_out_of_bounds
        | dropped ∷ rest ↦ ok (without_first rec dropped rest)
      ]

  -- The `while` loop, over the frames that are left.
  unfoldable pub shrink : List (StoredFrame F) → RecordingState F → RecordingState F
  shrink [] rec = record rec { frames = [] }
  shrink (f ∷ fs) rec =
      let rest = shrink fs (without_first rec f fs) in
      if ltb rec.max_memory_bytes rec.approx_memory_bytes
      then rest
      else record rec { frames = f ∷ fs }

  -- The frame that `push_frame` stores.
  abbrev pub new_frame : RecordingState F → ℤ → ℕ → F → List ℕ → StoredFrame F
  new_frame rec captured_at_unix_ms process_count capture_duration_ms json = record {
    frame_index = rec.total_frames_captured;
    captured_at_unix_ms = captured_at_unix_ms;
    process_count = process_count;
    capture_duration_ms = capture_duration_ms;
    json = json;
  }

  -- The statements between the two.
  unfoldable pub store :
      ⦃float : Float F⦄ → RecordingState F → ℤ → ℕ → F → List ℕ → RecordingState F
  store ⦃float⦄ rec captured_at_unix_ms process_count capture_duration_ms json = record rec {
    total_frames_captured = (rec.total_frames_captured + 1) % 2 ^ 32;
    total_capture_ms = float.add rec.total_capture_ms capture_duration_ms;
    max_capture_ms =
        if float.gt capture_duration_ms rec.max_capture_ms
        then capture_duration_ms
        else rec.max_capture_ms;
    frames =
        rec.frames ++ new_frame rec captured_at_unix_ms process_count capture_duration_ms json ∷ [];
    approx_memory_bytes = (rec.approx_memory_bytes + length json) % 2 ^ 64;
  }

  unfoldable pub push_frame :
      ⦃float : Float F⦄
      → RecordingState F
      → ℤ
      → ℕ
      → F
      → List ℕ
      → Result IndexError (RecordingState F)
  unfolding make_room store shrink
  push_frame rec captured_at_unix_ms process_count capture_duration_ms json = do
    roomy ← make_room rec
    let stored = store roomy captured_at_unix_ms process_count capture_duration_ms json
    ok (shrink stored.frames stored)

  unfoldable pub frame_json_by_index : RecordingState F → ℕ → Option (List ℕ)
  frame_json_by_index rec frame_index = elim rec.frames [
    | [] ↦ none
    | first ∷ rest ↦
        if ltb frame_index first.frame_index
        then none
        else elim (get_elem? (first ∷ rest) (frame_index - first.frame_index)) [
          | none ↦ none
          | some frame ↦ some frame.json
        ]
  ]

  abbrev pub summary : StoredFrame F → FrameSummary F
  summary frame = record {
    frame_index = frame.frame_index;
    captured_at_unix_ms = frame.captured_at_unix_ms;
    process_count = frame.process_count;
    capture_duration_ms = frame.capture_duration_ms;
  }

  unfoldable pub recording_session_info :
      ⦃float : Float F⦄ → RecordingState F → RecordingSessionInfo F
  recording_session_info ⦃float⦄ rec = record {
    session_id = rec.session_id;
    status = if is_none rec.stopped_at_unix_ms then recording else stopped;
    interval_ms = rec.interval_ms;
    started_at_unix_ms = rec.started_at_unix_ms;
    stopped_at_unix_ms = rec.stopped_at_unix_ms;
    frame_count = length rec.frames % 2 ^ 32;
    max_frames = rec.max_frames;
    max_memory_bytes = rec.max_memory_bytes;
    overflowed = rec.overflowed;
    approx_memory_bytes = rec.approx_memory_bytes;
    avg_capture_ms =
        if ltb 0 rec.total_frames_captured
        then float.div rec.total_capture_ms (float.of_u32 rec.total_frames_captured)
        else float.zero;
    max_capture_ms = rec.max_capture_ms;
    total_capture_ms = rec.total_capture_ms;
    frames = map summary rec.frames;
  }
