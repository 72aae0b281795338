-- ===== src/Server/Symbolication/Rounds.antt =====
-- The rounds of a stream over a table that stays as it is.
use peeps.Prelude.{
  ℕ, zero, suc, ℤ, ◌+◌, ◌-◌, min, ◌≤◌, ◌^◌, ◌≡◌, refl, ap, ◌∙◌, Bool, true, false, List, [], ◌∷◌,
  nat_ord, ◌==◌, ==_iff, leb, leb→lt, not, ◌||◌, length, arith, Bool-cases, inl, inr, Distinct,
}
use peeps.Types.Snapshot.{SnapshotSymbolicationUpdate}
use peeps.Server.Snapshots.{SnapshotBacktraceTable}
use peeps.Server.Symbolication.{
  Stream, Next, go_on, ended, stall_ticks_limit, completed_count, updated_frames, forced_updates,
  collect_frame_states, is_nil_frames, update_of, after_round, stream_round, stream_rounds,
  then_deliver,
}
use peeps.Server.Symbolication.Client.{ids_of, updated_frames-nil, collect_frame_states-Holds}

-- Rounds that find the same table, each with a client that takes the update.
abbrev pub rounds_of : ℕ → SnapshotBacktraceTable → List (SnapshotBacktraceTable × Bool)
rounds_of zero table = []
rounds_of (suc n) table = (table, true) ∷ rounds_of n table

-- Nothing is new since the last round.
pub record IsQuiet (table : SnapshotBacktraceTable) (s : Stream) : Type 0 where
  pub same_frames : updated_frames s.previous_frames table.frames ≡ []
  pub same_count : (completed_count table.frames == s.previous_completed) ≡ true

abbrev pub next_ticks : Stream → ℕ
next_ticks s = min (s.unchanged_ticks + 1) (2 ^ 32 - 1)

module _ (snapshot_id : ℤ) (table : SnapshotBacktraceTable) where
  abbrev pub forced : SnapshotSymbolicationUpdate
  forced =
      update_of snapshot_id (length table.frames) (length table.frames) true
        (forced_updates table.frames)

  abbrev pub sent : Stream → SnapshotSymbolicationUpdate
  sent s =
      update_of snapshot_id (length table.frames) (completed_count table.frames)
        (completed_count table.frames == length table.frames)
        (updated_frames s.previous_frames table.frames)

  pub stream_round-stalled :
      (s : Stream)
      → IsQuiet table s
      → leb stall_ticks_limit (next_ticks s) ≡ true
      → stream_round snapshot_id table true s ≡ (forced ∷ [], ended)
  unfolding stream_round
  stream_round-stalled s q h = rw (q.same_frames, q.same_count, h, stream_round) refl

  pub stream_round-quiet :
      (s : Stream)
      → IsQuiet table s
      → leb stall_ticks_limit (next_ticks s) ≡ false
      → stream_round snapshot_id table true s
        ≡ ([], after_round snapshot_id table.frames (next_ticks s))
  unfolding stream_round
  stream_round-quiet s q h = rw (q.same_frames, q.same_count, h, stream_round) refl

  pub stream_round-changed :
      (s : Stream)
      → (not (is_nil_frames (updated_frames s.previous_frames table.frames))
          || not (completed_count table.frames == s.previous_completed))
        ≡ true
      → stream_round snapshot_id table true s
        ≡ (sent s ∷ [], after_round snapshot_id table.frames 0)
  unfolding stream_round
  stream_round-changed s h = rw (h, stream_round) refl

  abbrev Output : Type 0
  Output = List SnapshotSymbolicationUpdate × Next

  -- What follows a round.
  continued : ℕ → Output → Output
  continued n (updates, next) = elim next [
    | go_on s' ↦ then_deliver snapshot_id updates (stream_rounds snapshot_id (rounds_of n table) s')
    | ended ↦ (updates, ended)
  ]

  -- A round that ends the stream, or lets it go on.
  pub rounds-ended :
      (n : ℕ) (s : Stream) (updates : List SnapshotSymbolicationUpdate)
      → stream_round snapshot_id table true s ≡ (updates, ended)
      → stream_rounds snapshot_id (rounds_of (suc n) table) s ≡ (updates, ended)
  unfolding stream_rounds continued
  rounds-ended n s updates h = ap (continued n) h

  pub rounds-go_on :
      (n : ℕ) (s s' : Stream) (updates : List SnapshotSymbolicationUpdate)
      → stream_round snapshot_id table true s ≡ (updates, go_on s')
      → stream_rounds snapshot_id (rounds_of (suc n) table) s
        ≡ then_deliver snapshot_id updates (stream_rounds snapshot_id (rounds_of n table) s')
  unfolding stream_rounds continued
  rounds-go_on n s s' updates h = ap (continued n) h

  abbrev pub remembered : ℕ → Stream
  remembered ticks = record {
    previous_frames = collect_frame_states [] table.frames;
    previous_completed = completed_count table.frames;
    unchanged_ticks = ticks;
  }

  pub after_round_complete :
      (ticks : ℕ)
      → (completed_count table.frames == length table.frames) ≡ true
      → after_round snapshot_id table.frames ticks ≡ ended
  unfolding after_round
  after_round_complete ticks h = rw (h, after_round) refl

  pub after_round-waiting :
      (ticks : ℕ)
      → (completed_count table.frames == length table.frames) ≡ false
      → after_round snapshot_id table.frames ticks ≡ go_on (remembered ticks)
  unfolding after_round
  after_round-waiting ticks h = rw (h, after_round) refl

  module _ (distinct : Distinct (ids_of table.frames)) where
    pub remembered-IsQuiet : (ticks : ℕ) → IsQuiet table (remembered ticks)
    unfolding collect_frame_states
    remembered-IsQuiet ticks = record {
      same_frames =
          updated_frames-nil (collect_frame_states [] table.frames) table.frames
            (collect_frame_states-Holds [] table.frames distinct);
      same_count = (==_iff (completed_count table.frames) (completed_count table.frames)).1 refl;
    }

    -- Quiet rounds with frames still pending end in the forced update.
    pub stream_rounds-stalled :
        (n : ℕ) (s : Stream)
        → (completed_count table.frames == length table.frames) ≡ false
        → IsQuiet table s
        → stall_ticks_limit ≤ s.unchanged_ticks + suc n
        → stream_rounds snapshot_id (rounds_of (suc n) table) s ≡ (forced ∷ [], ended)
    stream_rounds-stalled zero s waiting q enough =
        rounds-ended zero s (forced ∷ [])
          (stream_round-stalled s q (ground (arith, leb→lt stall_ticks_limit (next_ticks s))))
    stream_rounds-stalled (suc n) s waiting q enough =
        elim (Bool-cases (leb stall_ticks_limit (next_ticks s))) [
          | inl stall ↦ rounds-ended (suc n) s (forced ∷ []) (stream_round-stalled s q stall)
          | inr more ↦
              rounds-go_on (suc n) s (remembered (next_ticks s)) [] (
                stream_round-quiet s q more
                ∙ ap (λ (next : Next). ([], next)) (after_round-waiting (next_ticks s) waiting))
              ∙ ap (then_deliver snapshot_id []) (
                  stream_rounds-stalled n (remembered (next_ticks s)) waiting
                    (remembered-IsQuiet (next_ticks s))
                    (ground (arith, leb→lt stall_ticks_limit (next_ticks s) more)))
        ]
