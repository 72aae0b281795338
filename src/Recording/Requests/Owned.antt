-- ===== src/Recording/Requests/Owned.antt =====
-- The recording that a session's loop writes is the one that the session was started for.
use mathlib.Core.Path.{subst}
use text.Mathlib.TextLemmas.{append_cancel_left}
use peeps.Prelude.{
  ℕ, ℤ, ◌≤◌, ◌<◌, ◌≡◌, refl, sym, ap, ◌∙◌, Option, none, some, true, decimal, decimal-injective, ok,
  arith, is_some,
}
use peeps.Server.{to_session_id}
use peeps.Recording.Session.{Float, RecordingState, push_frame}
use peeps.Recording.Session.Window.{IsWindow}
use peeps.Recording.Session.Push.{push_frame-IsWindow, HasRoom}
use peeps.Recording.Session.Transfer.{Bytes, RecordingImportBody}
use peeps.Recording.Requests.{Recorder, RecordStartRequest, api_record_start, new_recording}
use peeps.Recording.Requests.Steps.{
  terms, Terms, HasPlace, push_frame-terms, api_record_start-fields, record_turn-fields,
  api_record_stop-fields, api_record_import-fields, Step, started, turned, stopped, imported,
  elsewhere, Steps, none_yet, then,
}

to_session_id-injective : (m n : ℕ) → to_session_id m ≡ to_session_id n → m ≡ n
unfolding to_session_id
to_session_id-injective m n e =
    decimal-injective m n (append_cancel_left "session:" (decimal m) (decimal n) e)

module _ {F : Type 0} ⦃float : Float F⦄ (request : RecordStartRequest) (now_ms : ℤ) (n : ℕ) where
  -- A recording as a request began it, but for its frames, which are a window within the limits.
  pub record IsOwn (rec : RecordingState F) : Type 0 where
    pub same_terms : terms rec ≡ terms {F = F} (new_recording request now_ms (to_session_id n))
    pub window : IsWindow rec
    pub within : rec.approx_memory_bytes ≤ rec.max_memory_bytes

  abbrev IsOwned : Option (RecordingState F) → Type 0
  IsOwned none = Unit
  IsOwned (some rec) = rec.stopped_at_unix_ms ≡ none → rec.session_id ≡ to_session_id n → IsOwn rec

  record Owned (s : Recorder F) : Type 0 where
    passed : n < s.next_session_id
    owned : IsOwned s.recording

  -- A recording that has stopped need not be owned.
  stopped-IsOwned :
      (rec : RecordingState F) → is_some rec.stopped_at_unix_ms ≡ true → IsOwned (some rec)
  stopped-IsOwned rec h = λ e. absurd (ground (arith))

  push_frame-IsOwned :
      (rec after : RecordingState F) (captured_at_unix_ms : ℤ) (process_count : ℕ)
      (capture_duration_ms : F) (json : Bytes)
      → HasRoom rec json
      → push_frame rec captured_at_unix_ms process_count capture_duration_ms json ≡ ok after
      → IsOwned (some rec)
      → IsOwned (some after)
  push_frame-IsOwned rec after captured_at_unix_ms process_count capture_duration_ms json room e own
        stop same =
      let kept =
        push_frame-terms rec after captured_at_unix_ms process_count capture_duration_ms json e in
      let was : IsOwn rec =
        own (ap (λ (k : Terms). k.stopped_at_unix_ms) (sym kept) ∙ stop)
          (ap (λ (k : Terms). k.session_id) (sym kept) ∙ same) in
      let (made, p, window, within, total) =
        push_frame-IsWindow rec captured_at_unix_ms process_count capture_duration_ms json
          was.window room in
      let eq : made ≡ after = cc in
      record {
        same_terms = kept ∙ was.same_terms;
        window = subst (λ r. IsWindow r) eq window;
        within = ground (arith);
      }

  new_recording-IsOwn : IsOwn (new_recording request now_ms (to_session_id n))
  new_recording-IsOwn = record {
    same_terms = refl;
    window = record {
      first = 0;
      consecutive = tt;
      up_to_date = refl;
      measured = refl;
      bounded = omega (arith);
    };
    within = omega (arith);
  }

  abbrev begun : ℕ → RecordingState F
  begun k = new_recording request now_ms (to_session_id k)

  start-Owned :
      (s t : Recorder F)
      → n ≡ s.next_session_id
      → api_record_start request now_ms s ≡ ok t
      → Owned t
  start-Owned s t here e =
      let (next, recording) = api_record_start-fields request now_ms s t e in
      record {
        passed = omega (arith, here, next);
        owned =
            subst IsOwned (ap (λ k. some (begun k)) here ∙ sym recording)
              (λ _ _. new_recording-IsOwn);
      }

  module _ {J : Type 0} (from_slice : Bytes → Option (RecordingImportBody F J))
      (to_string : J → Option Bytes) where
    Step-Owned : (s t : Recorder F) → Owned s → Step from_slice to_string s t → Owned t
    Step-Owned s t o (started later at e) =
        let (next, recording) = api_record_start-fields later at s t e in
        record {
          passed = omega (arith, o.passed, next);
          owned = subst IsOwned (sym recording) (λ _ same.
              absurd (omega (arith, o.passed, to_session_id-injective s.next_session_id n same)));
        }
    Step-Owned s t o
          (turned session_id captured_at_unix_ms process_count capture_duration_ms json place e) =
        let (rec, after, here, pushed, next, recording) =
          record_turn-fields session_id captured_at_unix_ms process_count capture_duration_ms json s
            t e in
        record {
          passed = omega (arith, o.passed, next);
          owned = subst IsOwned (sym recording) (
              push_frame-IsOwned rec after captured_at_unix_ms process_count capture_duration_ms
                json (subst (λ r. HasPlace r json) here place) pushed (subst IsOwned here o.owned));
        }
    Step-Owned s t o (stopped {signal = signal} at e) =
        let (next, rec, recording, ended) = api_record_stop-fields at signal s t e in
        record {
          passed = omega (arith, o.passed, next);
          owned = subst IsOwned (sym recording) (stopped-IsOwned rec ended);
        }
    Step-Owned s t o (imported {signal = signal} body at e) =
        let (next, rec, recording, ended) =
          api_record_import-fields from_slice to_string body at signal s t e in
        record {
          passed = omega (arith, o.passed, next);
          owned = subst IsOwned (sym recording) (stopped-IsOwned rec ended);
        }
    Step-Owned s t o (elsewhere recording next) = record {
      passed = omega (arith, o.passed, next);
      owned = subst IsOwned (sym recording) o.owned;
    }

    Steps-Owned : (s t : Recorder F) → Owned s → Steps from_slice to_string s t → Owned t
    Steps-Owned s t o none_yet = o
    Steps-Owned s t o (then {t = m} steps step) = Step-Owned m t (Steps-Owned s m o steps) step

-- A session is started, and any steps follow: other requests, imports, turns of any loops whose
-- frames have room, and steps that leave the recording alone. A running recording that bears the
-- session's identifier, which is what the session's loop writes to, still has the identifier, limits
-- and start of the request, its frames are a window, and its bytes are within the limit.
pub started_session-IsOwn :
    {F J : Type 0} ⦃float : Float F⦄ (from_slice : Bytes → Option (RecordingImportBody F J))
    (to_string : J → Option Bytes) (request : RecordStartRequest) (now_ms : ℤ)
    (before begun s : Recorder F) (rec : RecordingState F)
    → api_record_start request now_ms before ≡ ok begun
    → Steps from_slice to_string begun s
    → s.recording ≡ some rec
    → rec.stopped_at_unix_ms ≡ none
    → rec.session_id ≡ to_session_id before.next_session_id
    → IsOwn request now_ms before.next_session_id rec
started_session-IsOwn from_slice to_string request now_ms before begun s rec e steps here running
      same =
    let n = before.next_session_id in
    let o =
      Steps-Owned request now_ms n from_slice to_string begun s
        (start-Owned request now_ms n before begun refl e) steps in
    subst (λ r. IsOwned request now_ms n r) here o.owned running same
