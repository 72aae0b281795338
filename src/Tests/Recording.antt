-- ===== src/Tests/Recording.antt =====
-- A recording of two frames in a ring of two.
use peeps.Prelude.{
  ℕ, pos, ◌≡◌, ◌≤◌, ◌+◌, refl, true, none, List, [], ◌∷◌, ltb, arith, ok, Option, some, false,
  String, decimal, Bool, ◌==◌, ◌&&◌,
}
use peeps.Server.{new_state, to_session_id}
use peeps.Recording.Session.{
  Float, StoredFrame, RecordingState, push_frame, frame_json_by_index, RecordingSessionInfo,
  recording_session_info,
}
use peeps.Recording.Session.Transfer.{Bytes, ascii, RecordingImportFrame, RecordingImportBody}
use peeps.Recording.Requests.{
  Recorder, api_record_export, api_record_import, api_record_start, record_turn, again, no_limits,
  new_recording,
}
use peeps.Recording.Requests.Json.{write}
use peeps.Recording.Requests.Restored.{api_record_import-api_record_export}
use peeps.Recording.Requests.Steps.{turned, none_yet, then}
use peeps.Recording.Requests.Owned.{IsOwn, started_session-IsOwn}
use peeps.Recording.Session.Window.{IsWindow}
use peeps.Recording.Session.Push.{HasRoom, push_frame-IsWindow}

-- Durations in whole milliseconds.
instance abbrev whole_ms : Float ℕ
whole_ms = record {
  zero = 0;
  add = λ a b. a + b;
  div = λ a b. a;
  gt = λ a b. ltb b a;
  of_u32 = λ n. n;
}

abbrev frame : ℕ → List ℕ → StoredFrame ℕ
frame index json = record {
  frame_index = index;
  captured_at_unix_ms = pos 1000;
  process_count = 1;
  capture_duration_ms = 3;
  json = json;
}

abbrev rec : RecordingState ℕ
rec = record {
  session_id = "session:1";
  interval_ms = 500;
  started_at_unix_ms = pos 0;
  stopped_at_unix_ms = none;
  frames = frame 4 (b'1' ∷ b'2' ∷ b'3' ∷ []) ∷ frame 5 (b'9' ∷ []) ∷ [];
  max_frames = 2;
  max_memory_bytes = 3;
  overflowed = true;
  total_frames_captured = 6;
  approx_memory_bytes = 4;
  total_capture_ms = 18;
  max_capture_ms = 3;
}

abbrev rec-IsWindow : IsWindow rec
rec-IsWindow = record {
  first = 4;
  consecutive = (refl, (refl, tt));
  up_to_date = refl;
  measured = refl;
  bounded = omega arith;
}

abbrev rec-HasRoom : HasRoom rec (8 ∷ 8 ∷ [])
rec-HasRoom = record {
  some_frames = omega arith;
  capacity_fits = omega arith;
  index_fits = omega arith;
  bytes_fit = omega arith;
}

push_frame-IsWindow_example :
    (after : RecordingState ℕ) × (push_frame rec (pos 1500) 1 2 (8 ∷ 8 ∷ []) ≡ ok after)
    × IsWindow after
    × (after.approx_memory_bytes ≤ 3)
    × (after.total_frames_captured ≡ 7)
push_frame-IsWindow_example =
    push_frame-IsWindow rec (pos 1500) 1 2 (8 ∷ 8 ∷ []) rec-IsWindow rec-HasRoom

-- A recording that has stopped, exported and imported. A JSON value is its text here, and a session
-- is written as one byte.
abbrev ended : RecordingState ℕ
ended = record rec { stopped_at_unix_ms = some (pos 2000) }

abbrev ended-IsWindow : IsWindow ended
ended-IsWindow = record {
  first = 4;
  consecutive = (refl, (refl, tt));
  up_to_date = refl;
  measured = refl;
  bounded = omega arith;
}

abbrev values : List (RecordingImportFrame Bytes)
values =
    record { frame_index = 4; snapshot = b'1' ∷ b'2' ∷ b'3' ∷ [] }
    ∷ record { frame_index = 5; snapshot = b'9' ∷ [] }
    ∷ []

abbrev write_session : RecordingSessionInfo ℕ → Option Bytes
write_session session = some (b'0' ∷ [])

abbrev ended_body : RecordingImportBody ℕ Bytes
ended_body = record { version = 1; session = recording_session_info ended; frames = values }

-- The text of that recording's export.
abbrev ended_text : Bytes
unfolding ascii
ended_text =
    ascii
      "{\"version\":1,\"session\":0,\"frames\":[{\"frame_index\":4,\"snapshot\":123},{\"frame_index\":5,\"snapshot\":9}]}"

abbrev same : Bytes → Bytes → Bool
same [] [] = true
same (a ∷ rest) (b ∷ more) = a == b && same rest more
same _ _ = false

-- It reads this text, and no other.
abbrev from_slice : Bytes → Option (RecordingImportBody ℕ Bytes)
from_slice bytes = elim (same bytes ended_text) [ true ↦ some ended_body | false ↦ none ]

abbrev fresh_server : Recorder ℕ
fresh_server = new_state (RecordingState ℕ) 1

abbrev server_with : RecordingState ℕ → Recorder ℕ
server_with r = record fresh_server { recording = some r }

api_record_import-api_record_export_example :
    (api_record_export write_session (server_with ended) ≡ ok ended_text)
    × (api_record_import from_slice some ended_text (pos 3000) fresh_server
        ≡ ok (server_with (record ended { total_frames_captured = 2 }), false))
unfolding new_state ended_text write ascii decimal
api_record_import-api_record_export_example =
    api_record_import-api_record_export write_session from_slice some ended values (b'0' ∷ [])
      ended-IsWindow (omega arith) (pos 2000) refl
      (record { written = refl; texts = (refl, refl, (refl, refl, tt)); reads = refl })
      (server_with ended) fresh_server (pos 3000) refl

-- A session that captures one frame.
abbrev started_recording : RecordingState ℕ
started_recording = new_recording no_limits (pos 5) "session:1"

abbrev one_frame : RecordingState ℕ
one_frame = record started_recording {
  frames =
      record {
        frame_index = 0;
        captured_at_unix_ms = pos 1500;
        process_count = 1;
        capture_duration_ms = 2;
        json = 8 ∷ 8 ∷ [];
      }
      ∷ [];
  total_frames_captured = 1;
  approx_memory_bytes = 2;
  total_capture_ms = 2;
  max_capture_ms = 2;
}

abbrev server_at : RecordingState ℕ → Recorder ℕ
server_at r = record (server_with r) { next_session_id = 2 }

session_starts : api_record_start no_limits (pos 5) fresh_server ≡ ok (server_at started_recording)
unfolding api_record_start new_state peeps.Server.next_ordinal peeps.Server.to_session_id
    peeps.Prelude.decimal
session_starts = refl

session_turns :
    record_turn "session:1" (pos 1500) 1 2 (some (8 ∷ 8 ∷ [])) (server_at started_recording)
    ≡ again (server_at one_frame)
unfolding record_turn push_frame peeps.Recording.Session.make_room peeps.Recording.Session.store
    peeps.Recording.Session.shrink new_state
session_turns = refl

abbrev session_HasRoom : HasRoom started_recording (8 ∷ 8 ∷ [])
session_HasRoom = record {
  some_frames = omega arith;
  capacity_fits = omega arith;
  index_fits = omega arith;
  bytes_fit = omega arith;
}

session_id : "session:1" ≡ to_session_id 1
unfolding peeps.Prelude.decimal peeps.Server.to_session_id
session_id = refl

started_session-IsOwn_example : IsOwn no_limits (pos 5) 1 one_frame
unfolding new_state
started_session-IsOwn_example =
    started_session-IsOwn from_slice some no_limits (pos 5) fresh_server
      (server_at started_recording) (server_at one_frame) one_frame session_starts
      (then none_yet (turned "session:1" (pos 1500) 1 2 (8 ∷ 8 ∷ []) session_HasRoom session_turns))
      refl refl session_id
