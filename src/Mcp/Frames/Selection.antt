-- ===== src/Mcp/Frames/Selection.antt =====
-- The frames selected for display are apart, few, and from the backtrace.
use peeps.Prelude.{
  ℕ, zero, suc, ◌≤◌, ◌<◌, ◌≡◌, Bool, true, List, [], ◌∷◌, ◌++◌, drop, length, arith, All-append,
  nat_ord, ◌==◌, leb, ◌||◌, if◌then◌else◌, Result, ok, err, ◌>>=◌, Bool-cases, inl, inr, ◌⊎◌,
  length-append, is_some_and, contains, contains-append, Distinct, Distinct-snoc, Within,
  Within-cons, Within-self,
}
use peeps.BTreeMap.{get}
use peeps.Trace.{FrameId}
use peeps.Types.Snapshot.{SnapshotBacktrace, SnapshotBacktraceFrame}
use peeps.Mcp.Frames.{
  FrameCatalog, frames_that, fill, returned, select_frames_for_backtrace, is_nil,
  is_application_frame, is_resolved_frame,
}

Within-drop : (n : ℕ) (ids xs : List FrameId) → Within ids xs → Within ids (drop n xs)
Within-drop zero ids xs h = h
Within-drop (suc n) ids [] h = tt
Within-drop (suc n) ids (x ∷ xs) (a, h) = Within-drop n ids xs h

frames_that-Within :
    (test : SnapshotBacktraceFrame → Bool) (catalog : FrameCatalog) (ids : List FrameId)
    → Within ids (frames_that test catalog ids)
unfolding frames_that
frames_that-Within test catalog [] = tt
frames_that-Within test catalog (id ∷ ids) =
    let rest =
      Within-cons id ids (frames_that test catalog ids) (frames_that-Within test catalog ids) in
    elim (Bool-cases (is_some_and test (get id catalog))) [
      | inl e ↦ rw (e, frames_that) (ground arith, rest)
      | inr e ↦ rw (e, frames_that) rest
    ]

module _ (ids : List FrameId) (n : ℕ) where
  pub record IsSelection (out : List FrameId) : Type 0 where
    pub distinct : Distinct out
    pub within : Within ids out
    pub bounded : length out ≤ n

  -- How a loop ends: early with `n` frames, or with a place left and all its frames taken.
  abbrev Filled : List FrameId → List FrameId → Result (List FrameId) (List FrameId) → Type 0
  Filled xs out (ok got) =
      IsSelection got
      × (length got < n)
      × Within got xs
      × ((i : FrameId) → contains i out ≡ true → contains i got ≡ true)
  Filled xs out (err got) = IsSelection got × (length got ≡ n)

  widen :
      (x : FrameId) (xs out grown : List FrameId) (r : Result (List FrameId) (List FrameId))
      → contains x grown ≡ true
      → ((i : FrameId) → contains i out ≡ true → contains i grown ≡ true)
      → Filled xs grown r
      → Filled (x ∷ xs) out r
  widen x xs out grown (ok got) here keep (s, room, w, more) =
      (s, room, (more x here, w), λ i h. more i (keep i h))
  widen x xs out grown (err got) here keep h = h

  -- One round, which leaves `grown`.
  round :
      (x : FrameId) (xs out grown : List FrameId)
      → contains x grown ≡ true
      → ((i : FrameId) → contains i out ≡ true → contains i grown ≡ true)
      → IsSelection grown
      → (length grown < n → Filled xs grown (fill n xs grown))
      → Filled (x ∷ xs) out (if leb n (length grown) then err grown else fill n xs grown)
  round x xs out grown here keep s more = elim (Bool-cases (leb n (length grown))) [
    | inl full ↦ rw full (s, ground (arith, s.bounded))
    | inr room ↦ rw room (widen x xs out grown (fill n xs grown) here keep (more (ground arith)))
  ]

  fill-Filled :
      (xs out : List FrameId)
      → Within ids xs
      → IsSelection out
      → length out < n
      → Filled xs out (fill n xs out)
  unfolding fill
  fill-Filled [] out w s room = (s, room, tt, λ i h. h)
  fill-Filled (x ∷ xs) out (a, w) s room = elim (Bool-cases (contains x out)) [
    | inl old ↦ rw (old, fill) (round x xs out out old (λ i h. h) s (fill-Filled xs out w s))
    | inr new ↦
        let grown = out ++ x ∷ [] in
        let kept = λ (i : FrameId). contains-append i out (x ∷ []) in
        let s' : IsSelection grown = record {
          distinct = Distinct-snoc x out s.distinct new;
          within = All-append (λ i. contains i ids ≡ true) out (x ∷ []) s.within (a, tt);
          bounded = omega (arith, length-append out (x ∷ []));
        } in
        rw (new, fill)
          (round x xs out grown (ground (arith, kept x)) (λ i h. ground (arith, kept i)) s'
            (fill-Filled xs grown w s'))
  ]

  from_empty :
      (xs : List FrameId) (got : List FrameId) (r : Result (List FrameId) (List FrameId))
      → Filled xs got r
      → Filled xs [] r
  from_empty xs got (ok a) (s, room, w, more) = (s, room, w, λ i h. absurd (cc))
  from_empty xs got (err a) h = h

  -- One loop after another.
  after-Filled :
      (xs ys : List FrameId) (r : Result (List FrameId) (List FrameId))
      (next : List FrameId → Result (List FrameId) (List FrameId))
      → Filled xs [] r
      → ((got : List FrameId) → IsSelection got → length got < n → Filled ys [] (next got))
      → Filled ys [] (r >>= next)
  after-Filled xs ys (err got) next h k = h
  after-Filled xs ys (ok got) next (s, room, _, _) k = k got s room

  returned-IsSelection :
      (r : Result (List FrameId) (List FrameId))
      → Filled ids [] r
      → IsSelection (returned r) × ((length (returned r) ≡ n) ⊎ Within (returned r) ids)
  returned-IsSelection (ok got) (s, room, w, more) = (s, inr w)
  returned-IsSelection (err got) (s, full) = (s, inl full)

nothing :
    (ids : List FrameId) (n : ℕ)
    → (is_nil ids || n == 0) ≡ true
    → (length {A = FrameId} [] ≡ n) ⊎ Within [] ids
nothing [] n h = inr tt
nothing (id ∷ ids) n h = inl (ground arith)

-- The selection has no frame twice, only frames of the backtrace, and at most as many as are asked
-- for; and if it has fewer than that, it has them all.
pub select_frames_for_backtrace-IsSelection :
    (bt : SnapshotBacktrace) (catalog : FrameCatalog) (app_skip_count n : ℕ)
    → let out = select_frames_for_backtrace bt catalog app_skip_count n in
      IsSelection bt.frame_ids n out × ((length out ≡ n) ⊎ Within out bt.frame_ids)
unfolding select_frames_for_backtrace
select_frames_for_backtrace-IsSelection bt catalog app_skip_count n =
    let ids = bt.frame_ids in
    let application = drop app_skip_count (frames_that is_application_frame catalog ids) in
    let known = frames_that is_resolved_frame catalog ids in
    let start : IsSelection ids n [] = record {
      distinct = tt;
      within = tt;
      bounded = omega arith;
    } in
    elim (Bool-cases (is_nil ids || n == 0)) [
      | inl none_asked ↦
          rw (none_asked, select_frames_for_backtrace) (start, nothing ids n none_asked)
      | inr some_asked ↦
          let last = λ (got : List FrameId) (s : IsSelection ids n got) (room : length got < n).
            from_empty ids n ids got (fill n ids got)
              (fill-Filled ids n ids got (Within-self ids) s room) in
          let later = λ (got : List FrameId) (s : IsSelection ids n got) (room : length got < n).
            after-Filled ids n known ids (fill n known got) (λ k. fill n ids k)
              (from_empty ids n known got (fill n known got) (
                fill-Filled ids n known got (frames_that-Within is_resolved_frame catalog ids) s
                  room))
              last in
          rw (some_asked, select_frames_for_backtrace)
            (returned-IsSelection ids n _ (
              after-Filled ids n application ids (fill n application []) _
                (fill-Filled ids n application []
                  (Within-drop app_skip_count ids _
                    (frames_that-Within is_application_frame catalog ids))
                  start (ground arith))
                later))
    ]
