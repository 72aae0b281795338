-- ===== src/Recording/Requests.antt =====
-- crates/moire-web/src/api/recording.rs: each request's step on the shared state. A request that
-- answers under a second lock answers by `record_answer` from the state then. `stop_signal` only
-- ends the loop early, at a point where it writes nothing: a request returns whether it is given.
pub mod Json
pub mod Restored
pub mod Steps
pub mod Owned
use peeps.Prelude.{
  ℕ, ℤ, ◌+◌, ◌*◌, ◌%◌, ◌^◌, Bool, true, false, Option, none, some, List, [], ◌∷◌, ◌++◌, String,
  string_ord, eqb, length, is_none, is_some, not, ◌||◌, ◌==◌, if◌then◌else◌, Result, ok, err, ◌>>=◌,
  map_err,
}
use mathlib.Core.Option
use peeps.Server.{ServerState, Panic, next_ordinal, to_session_id}
use peeps.Recording.Session.{
  Float, StoredFrame, RecordingState, IndexError, RecordingSessionInfo, push_frame,
  frame_json_by_index, recording_session_info,
}
use peeps.Recording.Session.Transfer.{
  Bytes, ascii, RecordingImportBody, ImportError, export_frame_rows, build_imported_frames,
}

pub record RecordStartRequest : Type 0 where
  pub interval_ms : Option ℕ
  pub max_frames : Option ℕ
  pub max_memory_bytes : Option ℕ

pub data RequestError : Type 0 where
  invalid_json already_in_progress no_recording_in_progress : RequestError
  no_recording frame_not_found still_in_progress failed_to_serialize : RequestError
  unsupported_version : ℕ → RequestError
  import_failed : ImportError → RequestError
  ordinal_panic : Panic → RequestError
  unwrap_panic : RequestError

-- What the loop does after a turn.
pub data Turn (S : Type 0) : Type 0 where
  again : S → Turn S
  finished : Turn S
  panicked : IndexError → Turn S

abbrev pub no_limits : RecordStartRequest
no_limits = record { interval_ms = none; max_frames = none; max_memory_bytes = none }

abbrev pub unwrap_or : ℕ → Option ℕ → ℕ
unwrap_or d none = d
unwrap_or d (some n) = n

unfoldable pub start_request :
    (Bytes → Option RecordStartRequest) → Bytes → Result RequestError RecordStartRequest
start_request from_slice [] = ok no_limits
start_request from_slice (b ∷ body) = elim (from_slice (b ∷ body)) [
  | none ↦ err invalid_json
  | some request ↦ ok request
]

-- `rows.join(",")`.
unfoldable pub join : List Bytes → Bytes
unfolding ascii
join [] = []
join (row ∷ []) = row
join (row ∷ next ∷ rows) = row ++ (ascii "," ++ join (next ∷ rows))

unfoldable pub export_text : Bytes → List Bytes → Bytes
unfolding ascii join
export_text session_json rows =
    ascii "{\"version\":1,\"session\":"
    ++ (session_json ++ (ascii ",\"frames\":[" ++ (join rows ++ ascii "]}")))

abbrev pub Recorder : Type 0 → Type 0
Recorder F = ServerState (RecordingState F)

abbrev pub or_now : ℤ → Option ℤ → ℤ
or_now now_ms none = now_ms
or_now now_ms (some at) = at

module _ {F : Type 0} where
  abbrev pub is_running : Option (RecordingState F) → Bool
  is_running none = false
  is_running (some rec) = is_none rec.stopped_at_unix_ms

  -- The sum of the lengths of the frames' texts, as a 64-bit number.
  abbrev pub json_bytes : List (StoredFrame F) → ℕ
  json_bytes [] = 0
  json_bytes (frame ∷ frames) = length frame.json + json_bytes frames

module _ {F : Type 0} ⦃float : Float F⦄ where
  abbrev pub new_recording : RecordStartRequest → ℤ → String → RecordingState F
  new_recording request now_ms session_id = record {
    session_id = session_id;
    interval_ms = unwrap_or 500 request.interval_ms;
    started_at_unix_ms = now_ms;
    stopped_at_unix_ms = none;
    frames = [];
    max_frames = unwrap_or 1000 request.max_frames;
    max_memory_bytes = unwrap_or (256 * 1024 * 1024) request.max_memory_bytes;
    overflowed = false;
    total_frames_captured = 0;
    approx_memory_bytes = 0;
    total_capture_ms = float.zero;
    max_capture_ms = float.zero;
  }

  -- `api_record_start`, the first lock.
  unfoldable pub api_record_start :
      RecordStartRequest → ℤ → Recorder F → Result RequestError (Recorder F)
  unfolding next_ordinal to_session_id
  api_record_start request now_ms s =
      if is_running s.recording then err already_in_progress else (do
        next ← map_err ordinal_panic (next_ordinal s.next_session_id)
        ok (record s {
          next_session_id = next;
          recording = some (new_recording request now_ms (to_session_id s.next_session_id));
        }))

  -- One turn of the loop of a session: the snapshot that it took, if it could be written.
  unfoldable pub record_turn : String → ℤ → ℕ → F → Option Bytes → Recorder F → Turn (Recorder F)
  unfolding push_frame
  record_turn session_id captured_at_unix_ms process_count capture_duration_ms none s = again s
  record_turn session_id captured_at_unix_ms process_count capture_duration_ms (some json) s =
      elim s.recording [
        | none ↦ finished
        | some rec ↦
            if not (eqb rec.session_id session_id) || is_some rec.stopped_at_unix_ms
            then finished
            else elim (push_frame rec captured_at_unix_ms process_count capture_duration_ms json) [
              | err e ↦ panicked e
              | ok after ↦ again (record s { recording = some after })
            ]
      ]

  -- `api_record_stop`, the first lock.
  unfoldable pub api_record_stop : ℤ → Recorder F → Result RequestError (Recorder F × Bool)
  api_record_stop now_ms s = elim s.recording [
    | none ↦ err no_recording_in_progress
    | some rec ↦
        if is_some rec.stopped_at_unix_ms
        then err no_recording_in_progress
        else ok
            (record s { recording = some (record rec { stopped_at_unix_ms = some now_ms }) }, true)
  ]

  unfoldable pub api_record_current : Recorder F → Option (RecordingSessionInfo F)
  unfolding recording_session_info
  api_record_current s = Option.map recording_session_info s.recording

  -- The answer to a start, a stop or an import, under the second lock.
  unfoldable pub record_answer : Recorder F → Result RequestError (RecordingSessionInfo F)
  unfolding recording_session_info
  record_answer s = elim s.recording [
    | none ↦ err unwrap_panic
    | some rec ↦ ok (recording_session_info rec)
  ]

  unfoldable pub api_record_frame : ℕ → Recorder F → Result RequestError Bytes
  unfolding frame_json_by_index
  api_record_frame frame_index s = elim s.recording [
    | none ↦ err no_recording
    | some rec ↦ elim (frame_json_by_index rec frame_index) [
      | none ↦ err frame_not_found
      | some frame_json ↦ ok frame_json
    ]
  ]

  unfoldable pub api_record_export :
      (RecordingSessionInfo F → Option Bytes) → Recorder F → Result RequestError Bytes
  unfolding recording_session_info export_frame_rows export_text
  api_record_export to_string s = elim s.recording [
    | none ↦ err no_recording
    | some rec ↦
        if is_none rec.stopped_at_unix_ms
        then err still_in_progress
        else elim (to_string (recording_session_info rec)) [
          | none ↦ err failed_to_serialize
          | some session_json ↦ ok (export_text session_json (export_frame_rows rec.frames))
        ]
  ]

  abbrev pub imported_recording :
      RecordingSessionInfo F → ℤ → List (StoredFrame F) → RecordingState F
  imported_recording session now_ms frames = record {
    session_id = session.session_id;
    interval_ms = session.interval_ms;
    started_at_unix_ms = session.started_at_unix_ms;
    stopped_at_unix_ms = some (or_now now_ms session.stopped_at_unix_ms);
    frames = frames;
    max_frames = session.max_frames;
    max_memory_bytes = session.max_memory_bytes;
    overflowed = session.overflowed;
    total_frames_captured = length frames % 2 ^ 32;
    approx_memory_bytes = json_bytes frames % 2 ^ 64;
    total_capture_ms = session.total_capture_ms;
    max_capture_ms = session.max_capture_ms;
  }

  module _ {J : Type 0} (from_slice : Bytes → Option (RecordingImportBody F J))
      (to_string : J → Option Bytes) where
    abbrev pub parsed : Bytes → Result RequestError (RecordingImportBody F J)
    parsed body = elim (from_slice body) [
      | none ↦ err invalid_json
      | some read ↦ if read.version == 1 then ok read else err (unsupported_version read.version)
    ]

    -- `api_record_import`, the first lock.
    unfoldable pub api_record_import :
        Bytes → ℤ → Recorder F → Result RequestError (Recorder F × Bool)
    unfolding build_imported_frames
    api_record_import body now_ms s = do
      read ← parsed body
      frames ← map_err import_failed (build_imported_frames to_string read)
      ok (
        record s { recording = some (imported_recording read.session now_ms frames) },
        is_running s.recording,
      )
