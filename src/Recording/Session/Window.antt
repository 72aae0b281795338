-- ===== src/Recording/Session/Window.antt =====
-- crates/moire-web/src/recording/session.rs: the frames as a window, `frame_json_by_index` and the
-- loop that shrinks the ring.
use peeps.Prelude.{
  ℕ, zero, suc, ◌≡◌, refl, sym, ap, ◌∙◌, ◌≤◌, ◌<◌, inl, inr, ◌+◌, ◌-◌, Option, none, some, List, [],
  ◌∷◌, ◌++◌, length, get_elem?, ltb, ltb→le, ◌==◌, if◌then◌else◌, Bool-cases, arith,
}
use peeps.Recording.Session.{
  StoredFrame, RecordingState, without_first, shrink, frame_json_by_index,
}

module _ {F : Type 0} where
  -- The frames bear consecutive indices.
  abbrev pub Consecutive : ℕ → List (StoredFrame F) → Type 0
  Consecutive n [] = Unit
  Consecutive n (f ∷ fs) = (f.frame_index ≡ n) × Consecutive (suc n) fs

  abbrev pub bytes : List (StoredFrame F) → ℕ
  bytes [] = 0
  bytes (f ∷ fs) = length f.json + bytes fs

  -- The frame with an index, by search: what `frame_json_by_index` is to find.
  abbrev pub find_json : ℕ → List (StoredFrame F) → Option (List ℕ)
  find_json i [] = none
  find_json i (f ∷ fs) =
      let rest = find_json i fs in if f.frame_index == i then some f.json else rest

  -- The frames are the last captured ones, the number of bytes is exact, and the ring is within its
  -- capacity.
  pub record IsWindow (rec : RecordingState F) : Type 0 where
    pub first : ℕ
    pub consecutive : Consecutive first rec.frames
    pub up_to_date : first + length rec.frames ≡ rec.total_frames_captured
    pub measured : rec.approx_memory_bytes ≡ bytes rec.frames
    pub bounded : length rec.frames ≤ rec.max_frames

  pub Consecutive-snoc :
      (n : ℕ) (fs : List (StoredFrame F)) (f : StoredFrame F)
      → Consecutive n fs
      → f.frame_index ≡ n + length fs
      → Consecutive n (fs ++ f ∷ [])
  Consecutive-snoc n [] f c h = (ground (arith, h), tt)
  Consecutive-snoc n (g ∷ fs) f c h = (c.0, Consecutive-snoc (suc n) fs f c.1 (ground (arith, h)))

  pub bytes-snoc :
      (fs : List (StoredFrame F)) (f : StoredFrame F)
      → bytes (fs ++ f ∷ []) ≡ bytes fs + length f.json
  bytes-snoc [] f = omega arith
  bytes-snoc (g ∷ fs) f = ground (arith, bytes-snoc fs f)

  find_json-before :
      (n i : ℕ) (fs : List (StoredFrame F)) → Consecutive n fs → i < n → find_json i fs ≡ none
  find_json-before n i [] c h = refl
  find_json-before n i (f ∷ fs) c h =
      ground (arith, c.0, find_json-before (suc n) i fs c.1 (ground (arith, h)))

  abbrev pub json_at : List (StoredFrame F) → ℕ → Option (List ℕ)
  json_at fs i = elim (get_elem? fs i) [ none ↦ none | some frame ↦ some frame.json ]

  find_json-after :
      (n k : ℕ) (fs : List (StoredFrame F)) → Consecutive n fs → json_at fs k ≡ find_json (n + k) fs
  find_json-after n k [] c = refl
  find_json-after n zero (f ∷ fs) c = ground (arith, c.0)
  find_json-after n (suc k) (f ∷ fs) c = ground (arith, c.0, find_json-after (suc n) k fs c.1)

  lookup_lem :
      (n i : ℕ) (f : StoredFrame F) (fs : List (StoredFrame F))
      → Consecutive n (f ∷ fs)
      → (if ltb i f.frame_index then none else json_at (f ∷ fs) (i - f.frame_index))
        ≡ find_json i (f ∷ fs)
  lookup_lem n i f fs c = elim (Bool-cases (ltb i f.frame_index)) [
    | inl before ↦ rw before (sym (find_json-before n i (f ∷ fs) c (ground (arith, c.0, before))))
    | inr after ↦ rw after (
        find_json-after n (i - f.frame_index) (f ∷ fs) c
        ∙ ap (λ k. find_json k (f ∷ fs)) (ground (arith, c.0, ltb→le i f.frame_index after)))
  ]

  -- In a window, `frame_json_by_index` gives what a search of the frames for the index gives: the
  -- frame that bears it, and nothing when none does.
  pub frame_json_by_index_lem :
      (rec : RecordingState F) (i : ℕ)
      → IsWindow rec
      → frame_json_by_index rec i ≡ find_json i rec.frames
  unfolding frame_json_by_index
  frame_json_by_index_lem rec i w = go rec.frames w.consecutive
    where
      go :
          (fs : List (StoredFrame F))
          → Consecutive w.first fs
          → elim fs [
            | [] ↦ none
            | first ∷ rest ↦
                if ltb i first.frame_index
                then none
                else json_at (first ∷ rest) (i - first.frame_index)
          ]
            ≡ find_json i fs
      go [] c = refl
      go (f ∷ fs) c = lookup_lem w.first i f fs c

  pub shrink-IsWindow :
      (n : ℕ) (fs : List (StoredFrame F)) (rec : RecordingState F)
      → Consecutive n fs
      → n + length fs ≡ rec.total_frames_captured
      → rec.approx_memory_bytes ≡ bytes fs
      → length fs ≤ rec.max_frames
      → IsWindow (shrink fs rec)
        × ((shrink fs rec).approx_memory_bytes ≤ (shrink fs rec).max_memory_bytes)
  unfolding shrink
  shrink-IsWindow n [] rec c u m b = (
    record { first = n; consecutive = tt; up_to_date = u; measured = m; bounded = b },
    ground (arith, m),
  )
  shrink-IsWindow n (f ∷ fs) rec c u m b =
      elim (Bool-cases (ltb rec.max_memory_bytes rec.approx_memory_bytes)) [
        | inl over ↦
            rw (over, shrink)
              (shrink-IsWindow (suc n) fs (without_first rec f fs) c.1 (ground (arith, u))
                (ground (arith, m)) (ground (arith, b)))
        | inr within ↦
            rw (within, shrink)
              (
                record { first = n; consecutive = c; up_to_date = u; measured = m; bounded = b },
                ltb→le rec.max_memory_bytes rec.approx_memory_bytes within,
              )
      ]
