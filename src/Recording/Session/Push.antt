-- ===== src/Recording/Session/Push.antt =====
-- crates/moire-web/src/recording/session.rs: `push_frame`.
use peeps.Prelude.{
  ℕ, ℤ, suc, ◌≡◌, refl, sym, ap, ◌∙◌, ◌≤◌, ◌<◌, inl, inr, ◌+◌, ◌%◌, ◌^◌, false, some, List, [], ◌∷◌,
  ◌++◌, length, length-append, ltb, le→ltb, ok, Bool-cases, map_ok, arith,
}
use peeps.Recording.Session.{
  Float, StoredFrame, RecordingState, without_first, make_room, shrink, store, new_frame,
  push_frame, frame_json_by_index,
}
use peeps.Recording.Session.Window.{
  Consecutive, bytes, find_json, IsWindow, Consecutive-snoc, bytes-snoc, shrink-IsWindow,
  frame_json_by_index_lem,
}

-- The counters of the recording do not overflow with one more frame of this length, and the ring has
-- room for a frame at all.
pub record HasRoom {F : Type 0} (rec : RecordingState F) (json : List ℕ) : Type 0 where
  pub some_frames : 0 < rec.max_frames
  pub capacity_fits : rec.max_frames < 2 ^ 32
  pub index_fits : rec.total_frames_captured + 1 < 2 ^ 32
  pub bytes_fit : rec.approx_memory_bytes + length json < 2 ^ 64

module _ {F : Type 0} where
  -- What `make_room` leaves: a window with a free place, nothing else changed.
  record Roomy (rec roomy : RecordingState F) : Type 0 where
    pub window : IsWindow roomy
    pub spare : length roomy.frames < rec.max_frames
    pub same_capacity : roomy.max_frames ≡ rec.max_frames
    pub same_memory : roomy.max_memory_bytes ≡ rec.max_memory_bytes
    pub same_total : roomy.total_frames_captured ≡ rec.total_frames_captured
    pub fewer_bytes : roomy.approx_memory_bytes ≤ rec.approx_memory_bytes

  make_room-Roomy :
      (rec : RecordingState F) (json : List ℕ)
      → IsWindow rec
      → HasRoom rec json
      → (roomy : RecordingState F) × (make_room rec ≡ ok roomy) × Roomy rec roomy
  unfolding make_room
  make_room-Roomy rec json w h =
      elim (Bool-cases (ltb (length rec.frames % 2 ^ 32) rec.max_frames)) [
        | inl free ↦ (
          rec,
          rw free refl,
          record {
            window = w;
            spare = ground (arith, free, w.bounded, h.capacity_fits);
            same_capacity = refl;
            same_memory = refl;
            same_total = refl;
            fewer_bytes = omega arith;
          },
        )
        | inr full ↦
            go rec.frames refl full w.consecutive (ground (arith, full, w.bounded, h.capacity_fits))
      ]
    where
      go :
          (fs : List (StoredFrame F))
          → rec.frames ≡ fs
          → ltb (length rec.frames % 2 ^ 32) rec.max_frames ≡ false
          → Consecutive w.first fs
          → rec.max_frames ≤ length fs
          → (roomy : RecordingState F) × (make_room rec ≡ ok roomy) × Roomy rec roomy
      go [] e full c b = absurd (omega (arith, b, h.some_frames))
      go (f ∷ fs) e full c b =
          let l = ap length e in
          let m = ap bytes e in
          (
            without_first rec f fs,
            rw full (rw e refl),
            record {
              window = record {
                first = suc w.first;
                consecutive = c.1;
                up_to_date = ground (arith, w.up_to_date, l);
                measured = ground (arith, w.measured, m);
                bounded = ground (arith, w.bounded, l);
              };
              spare = ground (arith, w.bounded, l);
              same_capacity = refl;
              same_memory = refl;
              same_total = refl;
              fewer_bytes = omega arith;
            },
          )

  limits-shrink :
      (fs : List (StoredFrame F)) (rec : RecordingState F)
      → ((shrink fs rec).max_memory_bytes ≡ rec.max_memory_bytes)
        × ((shrink fs rec).total_frames_captured ≡ rec.total_frames_captured)
  unfolding shrink
  limits-shrink [] rec = (refl, refl)
  limits-shrink (f ∷ fs) rec =
      elim (Bool-cases (ltb rec.max_memory_bytes rec.approx_memory_bytes)) [
        | inl over ↦ rw (over, shrink) (limits-shrink fs (without_first rec f fs))
        | inr within ↦ rw (within, shrink) (refl, refl)
      ]

  find_json-last :
      (n : ℕ) (fs : List (StoredFrame F)) (f : StoredFrame F)
      → Consecutive n fs
      → f.frame_index ≡ n + length fs
      → find_json f.frame_index (fs ++ f ∷ []) ≡ some f.json
  find_json-last n [] f c h = ground arith
  find_json-last n (g ∷ fs) f c h =
      ground (arith, c.0, h, find_json-last (suc n) fs f c.1 (ground (arith, h)))

  -- A frame that fits the memory by itself is not dropped.
  shrink-keeps :
      (n : ℕ) (fs : List (StoredFrame F)) (f : StoredFrame F) (rec : RecordingState F)
      → Consecutive n fs
      → f.frame_index ≡ n + length fs
      → rec.approx_memory_bytes ≡ bytes (fs ++ f ∷ [])
      → length f.json ≤ rec.max_memory_bytes
      → find_json f.frame_index (shrink (fs ++ f ∷ []) rec).frames ≡ some f.json
  unfolding shrink
  shrink-keeps n [] f rec c h m fits =
      rw (le→ltb rec.max_memory_bytes rec.approx_memory_bytes (ground (arith, m, fits)), shrink)
        (find_json-last n [] f c h)
  shrink-keeps n (g ∷ fs) f rec c h m fits =
      elim (Bool-cases (ltb rec.max_memory_bytes rec.approx_memory_bytes)) [
        | inl over ↦
            rw (over, shrink)
              (shrink-keeps (suc n) fs f (without_first rec g (fs ++ f ∷ [])) c.1
                (ground (arith, h)) (ground (arith, m)) fits)
        | inr within ↦ rw (within, shrink) (find_json-last n (g ∷ fs) f c h)
      ]

  module _ ⦃float : Float F⦄ (rec : RecordingState F) (captured_at_unix_ms : ℤ) (process_count : ℕ)
      (capture_duration_ms : F) (json : List ℕ) (w : IsWindow rec) (h : HasRoom rec json) where
    stored-IsWindow :
        (roomy : RecordingState F)
        → Roomy rec roomy
        → (let stored = store roomy captured_at_unix_ms process_count capture_duration_ms json in
            IsWindow (shrink stored.frames stored)
            × ((shrink stored.frames stored).approx_memory_bytes
                ≤ (shrink stored.frames stored).max_memory_bytes))
    unfolding store
    stored-IsWindow roomy r =
        let stored = store roomy captured_at_unix_ms process_count capture_duration_ms json in
        let f = new_frame roomy captured_at_unix_ms process_count capture_duration_ms json in
        let l = length-append roomy.frames (f ∷ []) in
        shrink-IsWindow r.window.first stored.frames stored
          (Consecutive-snoc r.window.first roomy.frames f r.window.consecutive
            (sym r.window.up_to_date))
          (ground (arith, l, r.window.up_to_date, r.same_total, h.index_fits))
          (ground (arith, bytes-snoc roomy.frames f, r.window.measured, r.fewer_bytes, h.bytes_fit))
          (ground (arith, l, r.spare, r.same_capacity))

    -- `push_frame` succeeds and keeps the window: the frames are those captured last, at most
    -- `max_frames`, under consecutive indices, and their number of bytes is exact and within the
    -- limit. It counts one frame more. The recording was a window with a place for at least one
    -- frame, and its counters do not overflow.
    pub push_frame-IsWindow :
        (after : RecordingState F) × (push_frame rec captured_at_unix_ms process_count
            capture_duration_ms json
          ≡ ok after)
        × IsWindow after
        × (after.approx_memory_bytes ≤ rec.max_memory_bytes)
        × (after.total_frames_captured ≡ rec.total_frames_captured + 1)
    unfolding push_frame store
    push_frame-IsWindow =
        let (roomy, made, r) = make_room-Roomy rec json w h in
        let stored = store roomy captured_at_unix_ms process_count capture_duration_ms json in
        let (kept, within) = stored-IsWindow roomy r in
        let (same, total) = limits-shrink stored.frames stored in
        (
          shrink stored.frames stored,
          rw made refl,
          kept,
          ground (arith, within, same, r.same_memory),
          ground (arith, total, r.same_total, h.index_fits),
        )

    -- A frame that fits the memory limit by itself is found afterwards under the index that it was
    -- given, the number of frames captured before it. The recording was a window with a place for
    -- a frame, and its counters do not overflow.
    push_frame-newest :
        length json ≤ rec.max_memory_bytes
        → map_ok
            (λ after. frame_json_by_index after rec.total_frames_captured)
            (push_frame rec captured_at_unix_ms process_count capture_duration_ms json)
          ≡ ok (some json)
    unfolding push_frame store
    push_frame-newest fits =
        let (roomy, made, r) = make_room-Roomy rec json w h in
        let stored = store roomy captured_at_unix_ms process_count capture_duration_ms json in
        let f = new_frame roomy captured_at_unix_ms process_count capture_duration_ms json in
        let (kept, within) = stored-IsWindow roomy r in
        rw made (
          ap ok (
            frame_json_by_index_lem (shrink stored.frames stored) rec.total_frames_captured kept
            ∙ ap (λ i. find_json i (shrink stored.frames stored).frames) (sym r.same_total)
            ∙ shrink-keeps r.window.first roomy.frames f stored r.window.consecutive
                (sym r.window.up_to_date)
                (ground
                  (arith, bytes-snoc roomy.frames f, r.window.measured, r.fewer_bytes, h.bytes_fit))
                (ground (arith, fits, r.same_memory))))
