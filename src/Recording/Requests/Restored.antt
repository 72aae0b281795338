-- ===== src/Recording/Requests/Restored.antt =====
-- What an exported recording is once it is imported, on this server or on another.
use Prim.Native.Nat.{compare}
use peeps.Prelude.{
  ℕ, ℤ, suc, ◌+◌, ◌%◌, ◌^◌, ◌<◌, ◌≡◌, refl, sym, ap, ◌∙◌, Bool, Option, some, List, [], ◌∷◌, map,
  nat_ord, eqb_iff, length, Result, ok, ◌>>=◌, map_err, arith, All, sort_by, insert_sorted,
}
use peeps.BTreeMap.{BTreeMap, get, insert}
use peeps.BTreeMap.Laws.{get-insert}
use peeps.Recording.Session.{
  Float, StoredFrame, RecordingState, FrameSummary, RecordingSessionInfo, summary,
  recording_session_info,
}
use peeps.Recording.Session.Transfer.{
  Bytes, RecordingImportFrame, RecordingImportBody, export_frame_rows, summary_by_index,
  import_frames, build_imported_frames, imported_frame, reserialized,
}
use peeps.Recording.Session.Window.{Consecutive, IsWindow, bytes}
use peeps.Recording.Requests.Json.{write, export_value, export_text-write}
use peeps.Recording.Requests.{
  Recorder, export_text, api_record_export, api_record_import, is_running, json_bytes,
  imported_recording, parsed, or_now, RequestError, import_failed,
}

module _ {F J : Type 0} (to_string : J → Option Bytes) where
  -- Each value is written as the text of its frame, and bears its index.
  abbrev pub AreTexts : List (StoredFrame F) → List (RecordingImportFrame J) → Type 0
  AreTexts [] [] = Unit
  AreTexts [] (v ∷ vs) = ⊥
  AreTexts (f ∷ fs) [] = ⊥
  AreTexts (f ∷ fs) (v ∷ vs) =
      (v.frame_index ≡ f.frame_index) × (to_string v.snapshot ≡ some f.json) × AreTexts fs vs

module _ {F : Type 0} where
  -- A map that has the summary of each frame under the frame's index.
  abbrev Summarized : BTreeMap ℕ (FrameSummary F) → List (StoredFrame F) → Type 0
  Summarized m = All (λ (f : StoredFrame F). get f.frame_index m ≡ some (summary f))

  get-summary_by_index :
      (i n : ℕ) (m : BTreeMap ℕ (FrameSummary F)) (fs : List (StoredFrame F))
      → Consecutive n fs
      → i < n
      → get i (summary_by_index m (map summary fs)) ≡ get i m
  unfolding summary_by_index
  get-summary_by_index i n m [] c h = refl
  get-summary_by_index i n m (f ∷ fs) c h =
      get-summary_by_index i (suc n) (insert f.frame_index (summary f) m) fs c.1 (omega (arith, h))
      ∙ ground (arith, get-insert i f.frame_index (summary f) m, eqb_iff i f.frame_index, c.0)

  summary_by_index-Summarized :
      (n : ℕ) (m : BTreeMap ℕ (FrameSummary F)) (fs : List (StoredFrame F))
      → Consecutive n fs
      → Summarized (summary_by_index m (map summary fs)) fs
  unfolding summary_by_index
  summary_by_index-Summarized n m [] c = tt
  summary_by_index-Summarized n m (f ∷ fs) c = (
    get-summary_by_index f.frame_index (suc n) (insert f.frame_index (summary f) m) fs c.1
          (omega (arith, c.0))
        ∙ ground (
          arith,
          get-insert f.frame_index f.frame_index (summary f) m,
          eqb_iff f.frame_index f.frame_index,
        ),
    summary_by_index-Summarized (suc n) (insert f.frame_index (summary f) m) fs c.1,
  )

  json_bytes-bytes : (fs : List (StoredFrame F)) → json_bytes fs ≡ bytes fs
  json_bytes-bytes [] = refl
  json_bytes-bytes (f ∷ fs) = ap (◌+◌ (length f.json)) (json_bytes-bytes fs)

  abbrev by_index : List (StoredFrame F) → List (StoredFrame F)
  by_index = sort_by (λ (a b : StoredFrame F). compare a.frame_index b.frame_index)

  insert_sorted_first :
      (n : ℕ) (f : StoredFrame F) (fs : List (StoredFrame F))
      → Consecutive n (f ∷ fs)
      → insert_sorted (λ (a b : StoredFrame F). compare a.frame_index b.frame_index) f fs ≡ f ∷ fs
  unfolding insert_sorted
  insert_sorted_first n f [] c = refl
  insert_sorted_first n f (g ∷ fs) c = ground (arith, c.0, c.1.0)

  -- Frames with consecutive indices are in order.
  by_index_same : (n : ℕ) (fs : List (StoredFrame F)) → Consecutive n fs → by_index fs ≡ fs
  unfolding sort_by
  by_index_same n [] c = refl
  by_index_same n (f ∷ fs) c =
      ap (insert_sorted (λ (a b : StoredFrame F). compare a.frame_index b.frame_index) f)
        (by_index_same (suc n) fs c.1)
      ∙ insert_sorted_first n f fs c

reserialized-ok :
    {J : Type 0} (to_string : J → Option Bytes) (v : RecordingImportFrame J) (json : Bytes)
    → to_string v.snapshot ≡ some json
    → reserialized to_string v ≡ ok json
reserialized-ok to_string v json text = rw (text, reserialized) refl

module _ {F J : Type 0} ⦃float : Float F⦄ (to_string : J → Option Bytes) where
  import_frames-ok :
      (m : BTreeMap ℕ (FrameSummary F)) (fs : List (StoredFrame F))
      (vs : List (RecordingImportFrame J))
      → Summarized m fs
      → AreTexts to_string fs vs
      → import_frames to_string m vs ≡ ok fs
  unfolding import_frames
  import_frames-ok m [] [] s t = refl
  import_frames-ok m [] (v ∷ vs) s t = absurd t
  import_frames-ok m (f ∷ fs) [] s t = absurd t
  import_frames-ok m (f ∷ fs) (v ∷ vs) (here, s) (same, text, t) =
      let frame : get v.frame_index m ≡ some (summary f) = ap (λ i. get i m) same ∙ here in
      ap
        (λ written. written >>= λ json. import_frames to_string m vs >>= λ rest.
          ok (imported_frame v.frame_index json (get v.frame_index m) ∷ rest))
        (reserialized-ok to_string v f.json text)
      ∙ ap
          (λ read.
            read >>= λ rest. ok (imported_frame v.frame_index f.json (get v.frame_index m) ∷ rest))
          (import_frames-ok m fs vs s t)
      ∙ ap (λ found. ok (imported_frame v.frame_index f.json found ∷ fs)) frame
      ∙ ap (λ i. ok (imported_frame i f.json (some (summary f)) ∷ fs)) same

  build_imported_frames-ok :
      (rec : RecordingState F) (vs : List (RecordingImportFrame J))
      → IsWindow rec
      → AreTexts to_string rec.frames vs
      → build_imported_frames to_string
          (record { version = 1; session = recording_session_info rec; frames = vs })
        ≡ ok rec.frames
  unfolding build_imported_frames recording_session_info
  build_imported_frames-ok rec vs w t =
      rw
        (import_frames-ok (summary_by_index [] (map summary rec.frames)) rec.frames vs
          (summary_by_index-Summarized w.first [] rec.frames w.consecutive) t)
        (ap ok (by_index_same w.first rec.frames w.consecutive))

module _ {F : Type 0} ⦃float : Float F⦄
    (write_session : RecordingSessionInfo F → Option Bytes) where
  api_record_export-ok :
      (s : Recorder F) (rec : RecordingState F) (session_json : Bytes)
      → s.recording ≡ some rec
      → (at : ℤ) → rec.stopped_at_unix_ms ≡ some at
      → write_session (recording_session_info rec) ≡ some session_json
      → api_record_export write_session s
        ≡ ok (export_text session_json (export_frame_rows rec.frames))
  unfolding api_record_export
  api_record_export-ok s rec session_json here at stopped written =
      rw (here, written, stopped, api_record_export) refl

module _ {F J : Type 0} ⦃float : Float F⦄ (from_slice : Bytes → Option (RecordingImportBody F J))
    (to_string : J → Option Bytes) where
  parsed-ok :
      (text : Bytes) (body : RecordingImportBody F J)
      → from_slice text ≡ some body
      → body.version ≡ 1
      → parsed from_slice to_string text ≡ ok body
  parsed-ok text body read version = rw (read, version, parsed) refl

  then_import : ℤ → Recorder F → RecordingImportBody F J → Result RequestError (Recorder F × Bool)
  then_import now_ms t read = do
    frames ← map_err import_failed (build_imported_frames to_string read)
    ok (
      record t { recording = some (imported_recording read.session now_ms frames) },
      is_running t.recording,
    )

module _ {F J : Type 0} ⦃float : Float F⦄ (write_session : RecordingSessionInfo F → Option Bytes)
    (from_slice : Bytes → Option (RecordingImportBody F J)) (to_string : J → Option Bytes)
    (rec : RecordingState F) (values : List (RecordingImportFrame J)) (session_json : Bytes) where
  -- What is left of an exported recording: all but the number of frames that the ring has dropped.
  abbrev pub restored : RecordingState F
  restored = record rec { total_frames_captured = length rec.frames % 2 ^ 32 }

  abbrev remade : Option ℤ → ℕ → RecordingState F
  remade stopped_at_unix_ms approx_memory_bytes = record restored {
    stopped_at_unix_ms = stopped_at_unix_ms;
    approx_memory_bytes = approx_memory_bytes;
  }

  abbrev body : RecordingImportBody F J
  body = record { version = 1; session = recording_session_info rec; frames = values }

  -- The text of the JSON value that an export of `rec` is to be.
  abbrev pub text : Bytes
  text = write (export_value session_json rec.frames)

  -- The serializer writes the session and reads that text back.
  pub record ReadsBack : Type 0 where
    pub written : write_session (recording_session_info rec) ≡ some session_json
    pub texts : AreTexts to_string rec.frames values
    pub reads : from_slice text ≡ some body

  module _ (window : IsWindow rec) (fits : rec.approx_memory_bytes < 2 ^ 64) (at : ℤ)
      (stopped : rec.stopped_at_unix_ms ≡ some at) (back : ReadsBack) where
    imported-restored :
        (now_ms : ℤ) → imported_recording (recording_session_info rec) now_ms rec.frames ≡ restored
    unfolding recording_session_info
    imported-restored now_ms =
        ap (λ stop. remade stop (json_bytes rec.frames % 2 ^ 64))
          (ap (λ stop. some (or_now now_ms stop)) stopped ∙ sym stopped)
        ∙ ap (remade rec.stopped_at_unix_ms)
            (ground (arith, json_bytes-bytes rec.frames, window.measured, fits))

    -- A recording that has stopped, whose frames are a window and whose bytes are a 64-bit number,
    -- is exported as the text of a JSON object with the version, the session and each frame with its
    -- index. An import of the text, at any time and on any server, leaves that server with the same
    -- recording, but that it counts only the frames it has as captured; the signal is given when a
    -- recording was running there. The serializer writes the session, and reads from the text of that
    -- object the version, the session and the frames, which it can write again as they were.
    pub api_record_import-api_record_export :
        (s t : Recorder F) (now_ms : ℤ)
        → s.recording ≡ some rec
        → (api_record_export write_session s ≡ ok text)
          × (api_record_import from_slice to_string text now_ms t
              ≡ ok (record t { recording = some restored }, is_running t.recording))
    unfolding api_record_import then_import
    api_record_import-api_record_export s t now_ms here = (
      api_record_export-ok write_session s rec session_json here at stopped back.written
          ∙ ap ok (export_text-write session_json rec.frames),
      ap (λ read. read >>= then_import from_slice to_string now_ms t)
            (parsed-ok from_slice to_string text body back.reads refl)
          ∙ ap
              (λ built. map_err import_failed built >>= λ frames. ok (
                record t { recording = some (imported_recording body.session now_ms frames) },
                is_running t.recording,
              ))
              (build_imported_frames-ok to_string rec values window back.texts)
          ∙ ap (λ r. ok (record t { recording = some r }, is_running t.recording))
              (imported-restored now_ms),
    )
