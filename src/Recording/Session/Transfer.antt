-- ===== src/Recording/Session/Transfer.antt =====
-- crates/moire-web/src/recording/session.rs: `build_imported_frames` and `export_frame_rows`. `J` is
-- the type of JSON values, and `to_string` what the serializer makes of one.
use Prim.Native.Char.{code}
use Prim.Native.Nat.{compare}
use peeps.Prelude.{
  ℕ, pos, Option, none, some, List, [], ◌∷◌, ◌++◌, String, decimal, nat_ord, Result, ok, err, ◌>>=◌,
  sort_by,
}
use peeps.BTreeMap.{BTreeMap, get, insert}
use peeps.Recording.Session.{Float, StoredFrame, FrameSummary, RecordingSessionInfo}

abbrev pub Bytes : Type 0
Bytes = List ℕ

-- The bytes of a text of ASCII characters.
unfoldable pub ascii : String → Bytes
ascii String.[] = []
ascii (String.◌∷◌ c s) = code c ∷ ascii s

pub record RecordingImportFrame (J : Type 0) : Type 0 where
  pub frame_index : ℕ
  pub snapshot : J

pub record RecordingImportBody (F J : Type 0) : Type 0 where
  pub version : ℕ
  pub session : RecordingSessionInfo F
  pub frames : List (RecordingImportFrame J)

-- The frame with an index that could not be written again.
pub data ImportError : Type 0 where
  failed_to_reserialize : ℕ → ImportError

abbrev pub reserialized :
    {J : Type 0} → (J → Option Bytes) → RecordingImportFrame J → Result ImportError Bytes
reserialized to_string frame = elim (to_string frame.snapshot) [
  | none ↦ err (failed_to_reserialize frame.frame_index)
  | some json ↦ ok json
]

unfoldable pub frame_row : ℕ → Bytes → Bytes
unfolding ascii
frame_row frame_index json =
    ascii "{\"frame_index\":"
    ++ (ascii (decimal frame_index) ++ (ascii ",\"snapshot\":" ++ (json ++ ascii "}")))

module _ {F : Type 0} where
  unfoldable pub export_frame_rows : List (StoredFrame F) → List Bytes
  unfolding frame_row
  export_frame_rows [] = []
  export_frame_rows (frame ∷ frames) =
      frame_row frame.frame_index frame.json ∷ export_frame_rows frames

  -- `collect` into a map: of two summaries with one index the later stays.
  unfoldable pub summary_by_index :
      BTreeMap ℕ (FrameSummary F) → List (FrameSummary F) → BTreeMap ℕ (FrameSummary F)
  summary_by_index m [] = m
  summary_by_index m (frame ∷ frames) = summary_by_index (insert frame.frame_index frame m) frames

  module _ ⦃float : Float F⦄ where
    -- The frame that is stored for an imported one.
    abbrev pub imported_frame : ℕ → Bytes → Option (FrameSummary F) → StoredFrame F
    imported_frame frame_index json none = record {
      frame_index = frame_index;
      captured_at_unix_ms = pos 0;
      process_count = 0;
      capture_duration_ms = float.zero;
      json = json;
    }
    imported_frame frame_index json (some entry) = record {
      frame_index = frame_index;
      captured_at_unix_ms = entry.captured_at_unix_ms;
      process_count = entry.process_count;
      capture_duration_ms = entry.capture_duration_ms;
      json = json;
    }

    module _ {J : Type 0} (to_string : J → Option Bytes) where
      -- The loop over the frames.
      unfoldable pub import_frames :
          BTreeMap ℕ (FrameSummary F)
          → List (RecordingImportFrame J)
          → Result ImportError (List (StoredFrame F))
      import_frames summaries [] = ok []
      import_frames summaries (frame ∷ frames) = do
        json ← reserialized to_string frame
        rest ← import_frames summaries frames
        ok (imported_frame frame.frame_index json (get frame.frame_index summaries) ∷ rest)

      unfoldable pub build_imported_frames :
          RecordingImportBody F J → Result ImportError (List (StoredFrame F))
      unfolding summary_by_index import_frames
      build_imported_frames body = do
        frames ← import_frames (summary_by_index [] body.session.frames) body.frames
        ok (sort_by (λ (a b : StoredFrame F). compare a.frame_index b.frame_index) frames)
