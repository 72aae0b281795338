-- ===== src/Recording/Requests/Steps.antt =====
-- The requests and the loops of crates/moire-web/src/api/recording.rs as steps of the server, and
-- what a frame leaves of a recording as it was.
use peeps.Prelude.{
  ℕ, ℤ, suc, ◌≡◌, refl, ◌∙◌, Bool, true, false, Option, none, some, List, [], ◌∷◌, String,
  string_ord, eqb, length, ltb, Result, ok, err, ◌>>=◌, Ensures, Ensures-ok, ◌%◌, ◌^◌,
  if◌then◌else◌, arith, Bool-cases, Option-cases, ◌⊎◌, inl, inr, is_some, not, ◌||◌,
}
use peeps.Server.{next_ordinal, to_session_id}
use peeps.Recording.Session.{
  Float, RecordingState, StoredFrame, IndexError, removal_index_out_of_bounds, push_frame,
  make_room, store, shrink, without_first,
}
use peeps.Recording.Session.Push.{HasRoom}
use peeps.Recording.Session.Transfer.{Bytes, RecordingImportBody, build_imported_frames}
use peeps.Recording.Requests.{
  Recorder, RecordStartRequest, api_record_start, record_turn, again, api_record_stop,
  api_record_import, new_recording, imported_recording, parsed,
}

Result-cases : {E A : Type 0} (r : Result E A) → ((e : E) × (r ≡ err e)) ⊎ ((a : A) × (r ≡ ok a))
Result-cases (err e) = inl (e, refl)
Result-cases (ok a) = inr (a, refl)

-- What no frame changes.
pub record Terms : Type 0 where
  pub session_id : String
  pub interval_ms : ℕ
  pub started_at_unix_ms : ℤ
  pub stopped_at_unix_ms : Option ℤ
  pub max_frames : ℕ
  pub max_memory_bytes : ℕ

module _ {F : Type 0} where
  abbrev pub terms : RecordingState F → Terms
  terms rec = record {
    session_id = rec.session_id;
    interval_ms = rec.interval_ms;
    started_at_unix_ms = rec.started_at_unix_ms;
    stopped_at_unix_ms = rec.stopped_at_unix_ms;
    max_frames = rec.max_frames;
    max_memory_bytes = rec.max_memory_bytes;
  }

  terms-shrink :
      (fs : List (StoredFrame F)) (rec : RecordingState F) → terms (shrink fs rec) ≡ terms rec
  unfolding shrink
  terms-shrink [] rec = refl
  terms-shrink (f ∷ fs) rec = elim (Bool-cases (ltb rec.max_memory_bytes rec.approx_memory_bytes)) [
    | inl over ↦ rw (over, shrink) (terms-shrink fs (without_first rec f fs))
    | inr within ↦ rw (within, shrink) refl
  ]

  -- A result with the terms of a recording, or an error.
  abbrev WithTerms : Terms → Result IndexError (RecordingState F) → Type 0
  WithTerms kept = Ensures (λ rec. terms rec ≡ kept)

  make_room-WithTerms : (rec : RecordingState F) → WithTerms (terms rec) (make_room rec)
  unfolding make_room
  make_room-WithTerms rec =
      elim (ltb (length rec.frames % 2 ^ 32) rec.max_frames)
        as (λ free. WithTerms (terms rec) (
          if free then ok rec else elim rec.frames [
            | [] ↦ err removal_index_out_of_bounds
            | dropped ∷ rest ↦ ok (without_first rec dropped rest)
          ])) [
            | true ↦ refl
            | false ↦
                elim rec.frames
                  as (λ frames.
                    WithTerms (terms rec)
                      (elim frames as (λ _. Result IndexError (RecordingState F)) [
                        | [] ↦ err removal_index_out_of_bounds
                        | dropped ∷ rest ↦ ok (without_first rec dropped rest)
                      ])) [ [] ↦ tt | dropped ∷ rest ↦ refl ]
          ]

  -- The room that a frame needs where there is a recording.
  abbrev pub HasPlace : Option (RecordingState F) → Bytes → Type 0
  HasPlace none json = Unit
  HasPlace (some rec) json = HasRoom rec json

module _ {F : Type 0} ⦃float : Float F⦄ where
  push_frame-WithTerms :
      (rec : RecordingState F) (captured_at_unix_ms : ℤ) (process_count : ℕ)
      (capture_duration_ms : F) (json : Bytes)
      → WithTerms
          (terms rec)
          (push_frame rec captured_at_unix_ms process_count capture_duration_ms json)
  unfolding push_frame store
  push_frame-WithTerms rec captured_at_unix_ms process_count capture_duration_ms json =
      elim (make_room rec)
          as (λ made.
            WithTerms (terms rec) made
            → WithTerms (terms rec) (
                made >>= λ roomy. ok (
                  shrink
                    (store roomy captured_at_unix_ms process_count capture_duration_ms json).frames
                    (store roomy captured_at_unix_ms process_count capture_duration_ms json)))) [
                      | ok roomy ↦ λ same.
                          terms-shrink
                            (store roomy captured_at_unix_ms process_count capture_duration_ms
                              json).frames
                            (store roomy captured_at_unix_ms process_count capture_duration_ms json)
                          ∙ same
                      | err e ↦ λ _. tt
                    ]
        (make_room-WithTerms rec)

  pub push_frame-terms :
      (rec after : RecordingState F) (captured_at_unix_ms : ℤ) (process_count : ℕ)
      (capture_duration_ms : F) (json : Bytes)
      → push_frame rec captured_at_unix_ms process_count capture_duration_ms json ≡ ok after
      → terms after ≡ terms rec
  push_frame-terms rec after captured_at_unix_ms process_count capture_duration_ms json e =
      Ensures-ok (λ made. terms made ≡ terms rec)
        (push_frame rec captured_at_unix_ms process_count capture_duration_ms json) after
        (push_frame-WithTerms rec captured_at_unix_ms process_count capture_duration_ms json) e

  pub api_record_start-fields :
      (request : RecordStartRequest) (now_ms : ℤ) (s t : Recorder F)
      → api_record_start request now_ms s ≡ ok t
      → (t.next_session_id ≡ suc s.next_session_id)
        × (t.recording ≡ some (new_recording request now_ms (to_session_id s.next_session_id)))
  unfolding api_record_start next_ordinal
  api_record_start-fields request now_ms s t e = ground (arith)

  pub record_turn-fields :
      (session_id : String) (captured_at_unix_ms : ℤ) (process_count : ℕ) (capture_duration_ms : F)
      (json : Bytes) (s t : Recorder F)
      → record_turn session_id captured_at_unix_ms process_count capture_duration_ms (some json) s
        ≡ again t
      → (rec : RecordingState F) × (after : RecordingState F) × (s.recording ≡ some rec)
        × (push_frame rec captured_at_unix_ms process_count capture_duration_ms json ≡ ok after)
        × (t.next_session_id ≡ s.next_session_id)
        × (t.recording ≡ some after)
  unfolding record_turn
  record_turn-fields session_id captured_at_unix_ms process_count capture_duration_ms json s t e =
      elim (Option-cases s.recording) [
        | inl absent ↦ absurd (ground (arith))
        | inr (rec, here) ↦
            let busy = not (eqb rec.session_id session_id) || is_some rec.stopped_at_unix_ms in
            elim (Bool-cases busy) [
              | inl other ↦ absurd (ground (arith))
              | inr own ↦
                  elim (Result-cases
                    (push_frame rec captured_at_unix_ms process_count capture_duration_ms json)) [
                      | inl (failed, p) ↦ absurd (ground (arith))
                      | inr (after, p) ↦ (rec, after, here, p, ground (arith), ground (arith))
                    ]
            ]
      ]

  pub api_record_stop-fields :
      (now_ms : ℤ) (signal : Bool) (s t : Recorder F)
      → api_record_stop now_ms s ≡ ok (t, signal)
      → (t.next_session_id ≡ s.next_session_id)
        × (rec : RecordingState F) × (t.recording ≡ some rec)
        × (is_some rec.stopped_at_unix_ms ≡ true)
  unfolding api_record_stop
  api_record_stop-fields now_ms signal s t e = elim (Option-cases s.recording) [
    | inl absent ↦ absurd (ground (arith))
    | inr (rec, here) ↦ elim (Bool-cases (is_some rec.stopped_at_unix_ms)) [
      | inl already ↦ absurd (ground (arith))
      | inr running ↦
          (ground (arith), record rec { stopped_at_unix_ms = some now_ms }, ground (arith), refl)
    ]
  ]

module _ {F J : Type 0} ⦃float : Float F⦄ (from_slice : Bytes → Option (RecordingImportBody F J))
    (to_string : J → Option Bytes) where
  pub api_record_import-fields :
      (body : Bytes) (now_ms : ℤ) (signal : Bool) (s t : Recorder F)
      → api_record_import from_slice to_string body now_ms s ≡ ok (t, signal)
      → (t.next_session_id ≡ s.next_session_id)
        × (rec : RecordingState F) × (t.recording ≡ some rec)
        × (is_some rec.stopped_at_unix_ms ≡ true)
  unfolding api_record_import
  api_record_import-fields body now_ms signal s t e =
      elim (Result-cases (parsed from_slice to_string body)) [
        | inl (failed, p) ↦ absurd (ground (arith))
        | inr (read, p) ↦ elim (Result-cases (build_imported_frames to_string read)) [
          | inl (failed, b) ↦ absurd (ground (arith))
          | inr (frames, b) ↦
              (ground (arith), imported_recording read.session now_ms frames, ground (arith), refl)
        ]
      ]

  -- A step of the server that concerns the recording, or that leaves it alone. A frame has room in
  -- the recording's counters.
  pub data Step (s : Recorder F) : Recorder F → Type 0 where
    started :
        {t : Recorder F} (request : RecordStartRequest) (now_ms : ℤ)
        → api_record_start request now_ms s ≡ ok t
        → Step s t
    turned :
        {t : Recorder F} (session_id : String) (captured_at_unix_ms : ℤ) (process_count : ℕ)
        (capture_duration_ms : F) (json : Bytes)
        → HasPlace s.recording json
        → record_turn session_id captured_at_unix_ms process_count capture_duration_ms (some json) s
          ≡ again t
        → Step s t
    stopped :
        {t : Recorder F} {signal : Bool} (now_ms : ℤ)
        → api_record_stop now_ms s ≡ ok (t, signal)
        → Step s t
    imported :
        {t : Recorder F} {signal : Bool} (body : Bytes) (now_ms : ℤ)
        → api_record_import from_slice to_string body now_ms s ≡ ok (t, signal)
        → Step s t
    elsewhere :
        {t : Recorder F}
        → t.recording ≡ s.recording
        → t.next_session_id ≡ s.next_session_id
        → Step s t

  pub data Steps (s : Recorder F) : Recorder F → Type 0 where
    none_yet : Steps s s
    then : {t u : Recorder F} → Steps s t → Step t u → Steps s u
