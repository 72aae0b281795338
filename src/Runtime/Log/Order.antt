-- ===== src/Runtime/Log/Order.antt =====
-- crates/moire-runtime/src/db.rs: the order of the sequence numbers in the log.
use mathlib.Core.List.{reverse}
use peeps.Prelude.{
  suc, ◌≤◌, ◌<◌, ◌≡◌, inl, inr, Bool, Option, List, [], ◌∷◌, ◌++◌, arith, length, retain,
  Bool-cases, ltb, leb, u64_max, ◌==◌,
}
use peeps.Types.Change.{SeqNo, next_seq}
use peeps.Runtime.Log.{
  ChangeLog, InternalStampedChange, InternalChange, compact_changes, append_change, push, mark,
  nothing_seen, compact_target_changes, max_changes_before_compact,
}

-- Strictly ascending from `lo` on, and below `hi`.
abbrev pub InOrder : SeqNo → List InternalStampedChange → SeqNo → Type 0
InOrder lo [] hi = lo ≤ hi
InOrder lo (c ∷ cs) hi = (lo ≤ c.seq_no) × InOrder (suc c.seq_no) cs hi

InOrder-mono :
    (lo lo' hi : SeqNo) (cs : List InternalStampedChange)
    → lo' ≤ lo
    → InOrder lo cs hi
    → InOrder lo' cs hi
InOrder-mono lo lo' hi [] h o = omega arith
InOrder-mono lo lo' hi (c ∷ cs) h o = (omega arith, o.1)

pub InOrder-le : (lo hi : SeqNo) (cs : List InternalStampedChange) → InOrder lo cs hi → lo ≤ hi
InOrder-le lo hi [] o = o
InOrder-le lo hi (c ∷ cs) o = omega (arith, o.0, InOrder-le (suc c.seq_no) hi cs o.1)

InOrder-append :
    (lo hi : SeqNo) (cs : List InternalStampedChange) (change : InternalChange)
    → InOrder lo cs hi
    → InOrder lo (cs ++ record { seq_no = hi; change = change } ∷ []) (suc hi)
InOrder-append lo hi [] change o = (o, omega arith)
InOrder-append lo hi (c ∷ cs) change o = (o.0, InOrder-append (suc c.seq_no) hi cs change o.1)

pub InOrder-retain :
    (lo hi : SeqNo) (p : InternalStampedChange → Bool) (cs : List InternalStampedChange)
    → InOrder lo cs hi
    → InOrder lo (retain p cs) hi
InOrder-retain lo hi p [] o = o
InOrder-retain lo hi p (c ∷ cs) o = elim (Bool-cases (p c)) [
  | inl kept ↦ rw kept (o.0, InOrder-retain (suc c.seq_no) hi p cs o.1)
  | inr gone ↦ rw gone (
      InOrder-mono (suc c.seq_no) lo hi (retain p cs) (omega arith)
        (InOrder-retain (suc c.seq_no) hi p cs o.1))
]

-- The compaction leaves the log, or keeps some of its changes in their order.
pub compact_cases {ℓ} :
    (P : ChangeLog → Type ℓ) (log : ChangeLog)
    → P log
    → ((p : InternalStampedChange → Bool) (before : Option SeqNo)
        → P (record log { changes = retain p log.changes; compacted_before_seq_no = before }))
    → P (compact_changes log)
unfolding compact_changes
compact_cases P log same some_kept =
    elim (Bool-cases (leb (length log.changes) compact_target_changes)) [
      | inl small ↦ rw small same
      | inr large ↦
          elim (Bool-cases
            (length (mark (reverse log.changes) nothing_seen).keep_seq == length log.changes)) [
              | inl all ↦ rw (large, all) same
              | inr fewer ↦ rw (large, fewer) (some_kept _ _)
            ]
    ]

-- A push appends the change, and may compact.
pub push_cases {ℓ} :
    (P : ChangeLog → Type ℓ) (log : ChangeLog) (change : InternalChange)
    → P (append_change log change)
    → ((p : InternalStampedChange → Bool) (before : Option SeqNo)
        → P (record (append_change log change) {
          changes = retain p (append_change log change).changes;
          compacted_before_seq_no = before;
        }))
    → P (push log change)
unfolding push
push_cases P log change same some_kept =
    elim (Bool-cases (ltb max_changes_before_compact (length (append_change log change).changes))) [
      | inl large ↦ rw large (compact_cases P (append_change log change) same some_kept)
      | inr small ↦ rw small same
    ]

-- A push, whether or not it compacts the log, advances the counter by one and leaves the sequence
-- numbers strictly ascending and below the counter. They were so before, and the counter is not at
-- the end of its range.
push-InOrder :
    (log : ChangeLog) (change : InternalChange)
    → log.next_seq_no < u64_max
    → InOrder 0 log.changes log.next_seq_no
    → ((push log change).next_seq_no ≡ suc log.next_seq_no)
      × InOrder 0 (push log change).changes (suc log.next_seq_no)
push-InOrder log change below o =
    let whole = InOrder-append 0 log.next_seq_no log.changes change o in
    let up : next_seq log.next_seq_no ≡ suc log.next_seq_no = omega arith in
    push_cases
      (λ l. (l.next_seq_no ≡ suc log.next_seq_no) × InOrder 0 l.changes (suc log.next_seq_no)) log
      change (up, whole)
      (λ p b.
        (up, InOrder-retain 0 (suc log.next_seq_no) p (append_change log change).changes whole))
