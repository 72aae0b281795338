-- ===== src/Server/Table/Merged.antt =====
-- Two states of one frame.
use peeps.Prelude.{
  ◌≤◌, ◌≡◌, refl, true, false, string_ord, eqb_iff, ok, err, arith, ◌&&◌, leb, Bool-cases, inl, inr,
  ◌⊎◌,
}
use peeps.Types.Snapshot.{SnapshotBacktraceFrame, resolved, unresolved}
use peeps.Server.Table.{
  FrameDedupKey, conflicting_resolved, is_pending_frame, frame_resolution_rank, same_frame,
  is_resolved, merge_frame_state,
}

same_frame-rank :
    (a b : SnapshotBacktraceFrame)
    → same_frame a b ≡ true
    → frame_resolution_rank a ≡ frame_resolution_rank b
unfolding same_frame frame_resolution_rank is_pending_frame
same_frame-rank (resolved a) (resolved b) h = refl
same_frame-rank (resolved a) (unresolved b) h = absurd (cc)
same_frame-rank (unresolved a) (resolved b) h = absurd (cc)
same_frame-rank (unresolved a) (unresolved b) h = ground (arith, eqb_iff a.reason b.reason)

-- Merging two states of a frame either reports a conflict, and then both are resolved and differ,
-- or gives one of the two, resolved at least as far as each: resolved over unresolved, and
-- unresolved for good over pending.
pub merge_frame_state-rank :
    (a b : SnapshotBacktraceFrame) (key : FrameDedupKey)
    → ((merge_frame_state a b key ≡ err (conflicting_resolved key))
        × (is_resolved a ≡ true)
        × (is_resolved b ≡ true)
        × (same_frame a b ≡ false))
      ⊎ ((m : SnapshotBacktraceFrame) × (merge_frame_state a b key ≡ ok m)
          × ((m ≡ a) ⊎ (m ≡ b))
          × (frame_resolution_rank a ≤ frame_resolution_rank m)
          × (frame_resolution_rank b ≤ frame_resolution_rank m))
unfolding merge_frame_state
merge_frame_state-rank a b key = elim (Bool-cases (same_frame a b)) [
  | inl same ↦ inr (
    a,
    rw (same, merge_frame_state) refl,
    inl refl,
    omega arith,
    omega (arith, same_frame-rank a b same),
  )
  | inr apart ↦ elim (Bool-cases (is_resolved a && is_resolved b)) [
    | inl both ↦ inl (rw (apart, both, merge_frame_state) refl, ground arith, ground arith, apart)
    | inr one ↦ elim (Bool-cases (leb (frame_resolution_rank a) (frame_resolution_rank b))) [
      | inl up ↦
          inr (b, rw (apart, one, up, merge_frame_state) refl, inr refl, ground arith, omega arith)
      | inr down ↦
          inr
            (a, rw (apart, one, down, merge_frame_state) refl, inl refl, omega arith, ground arith)
    ]
  ]
]
