-- ===== src/Runtime/Log/Pull.antt =====
-- crates/moire-runtime/src/db.rs: what `pull_changes_since` returns, and pulls in a row.
use mathlib.Core.Path.{subst}
use peeps.Prelude.{
  ℕ, zero, suc, ◌+◌, ◌≤◌, ◌<◌, ◌≡◌, inl, inr, refl, ap, sym, ◌∙◌, Bool, false, List, [], ◌∷◌, ◌++◌,
  arith, length, retain, Bool-cases, ltb, leb, u64_max, ◌==◌, take, drop, length-drop,
}
use peeps.Types.Change.{SeqNo, next_seq, StreamId, StampedChange, PullChangesResponse}
use peeps.Runtime.Log.{ChangeLog, InternalStampedChange}
use peeps.Runtime.Log.Decode.{
  Json, Scanned, to_change, push_decoded, scan, pull_changes_since, any_from, effective_from,
}
use peeps.Runtime.Log.Order.{InOrder, InOrder-le}

-- The changes at or after a cursor.
abbrev pub pending : SeqNo → List InternalStampedChange → List InternalStampedChange
pending from = retain (λ c. leb from c.seq_no)

-- The changes that decode, with their sequence numbers.
unfoldable pub decoded : Json → List InternalStampedChange → List StampedChange
decoded json [] = []
decoded json (c ∷ cs) = push_decoded c.seq_no (to_change json c.change) (decoded json cs)

-- The cursor behind the last of some changes.
pub cursor_after : SeqNo → List InternalStampedChange → SeqNo
cursor_after next [] = next
cursor_after next (c ∷ cs) = cursor_after (next_seq c.seq_no) cs

-- The loop takes the first changes at or after the cursor, up to the limit.
scan_lem :
    (json : Json) (limit from k scanned next : ℕ) (cs : List InternalStampedChange)
    → limit ≡ scanned + k
    → scan json limit from scanned next cs ≡ record {
      changes = decoded json (take k (pending from cs));
      next_seq_no = cursor_after next (take k (pending from cs));
      truncated = ltb k (length (pending from cs));
    }
unfolding scan decoded cursor_after
scan_lem json limit from zero scanned next [] e = refl
scan_lem json limit from (suc k) scanned next [] e = ground arith
scan_lem json limit from zero scanned next (c ∷ cs) e =
    ground (arith, scan_lem json limit from zero scanned next cs e)
scan_lem json limit from (suc k) scanned next (c ∷ cs) e = ground (
  arith,
  scan_lem json limit from (suc k) scanned next cs e,
  scan_lem json limit from k (scanned + 1) (next_seq c.seq_no) cs (omega arith),
)

any_from_lem :
    (from : SeqNo) (cs : List InternalStampedChange)
    → any_from from cs ≡ ltb 0 (length (pending from cs))
any_from_lem from [] = ground arith
any_from_lem from (c ∷ cs) = ground (arith, any_from_lem from cs)

-- What a pull returns: from the cursor, moved up to what compaction left, the first `max_changes`
-- pending changes that decode, in order; the cursor behind the last of them; and whether more are
-- pending.
pub pull_changes_since_lem :
    (json : Json) (stream_id : StreamId) (log : ChangeLog) (from max_changes : ℕ)
    → let start = effective_from log.compacted_before_seq_no from in
      let batch = take max_changes (pending start log.changes) in
      pull_changes_since json stream_id log from max_changes ≡ record {
        stream_id = stream_id;
        from_seq_no = start;
        next_seq_no = cursor_after start batch;
        changes = decoded json batch;
        truncated = ltb max_changes (length (pending start log.changes));
        compacted_before_seq_no = log.compacted_before_seq_no;
      }
unfolding pull_changes_since decoded cursor_after
pull_changes_since_lem json stream_id log from zero =
    let start = effective_from log.compacted_before_seq_no from in
    ap (idle start) (any_from_lem start log.changes)
  where
    idle : SeqNo → Bool → PullChangesResponse
    idle start more = record {
      stream_id = stream_id;
      from_seq_no = start;
      next_seq_no = start;
      changes = [];
      truncated = more;
      compacted_before_seq_no = log.compacted_before_seq_no;
    }
pull_changes_since_lem json stream_id log from (suc k) =
    let start = effective_from log.compacted_before_seq_no from in
    let positive : (suc k == 0) ≡ false = ground arith in
    rw positive
      (ap (batched start) (scan_lem json (suc k) start (suc k) 0 start log.changes (omega arith)))
  where
    batched : SeqNo → Scanned → PullChangesResponse
    batched start scanned = record {
      stream_id = stream_id;
      from_seq_no = start;
      next_seq_no = scanned.next_seq_no;
      changes = scanned.changes;
      truncated = scanned.truncated;
      compacted_before_seq_no = log.compacted_before_seq_no;
    }

-- In an ordered log nothing before a lower bound is skipped.
pending_all :
    (from lo hi : SeqNo) (cs : List InternalStampedChange)
    → from ≤ lo
    → InOrder lo cs hi
    → pending from cs ≡ cs
pending_all from lo hi [] h o = refl
pending_all from lo hi (c ∷ cs) h o = ground (arith, pending_all from (suc c.seq_no) hi cs)

pub le-cursor_after :
    (k from next lo hi : ℕ) (cs : List InternalStampedChange)
    → hi ≤ u64_max
    → InOrder lo cs hi
    → from ≤ next
    → from ≤ cursor_after next (take k (pending from cs))
unfolding cursor_after
le-cursor_after zero from next lo hi cs top o h = h
le-cursor_after (suc k) from next lo hi [] top o h = h
le-cursor_after (suc k) from next lo hi (c ∷ cs) top o h = ground (
  arith,
  InOrder-le (suc c.seq_no) hi cs o.1,
  le-cursor_after (suc k) from next (suc c.seq_no) hi cs top o.1 h,
  le-cursor_after k from (next_seq c.seq_no) (suc c.seq_no) hi cs top o.1,
)

-- The cursor behind the first `k` pending changes leaves exactly the others pending.
pending-cursor_after :
    (k from lo hi : ℕ) (cs : List InternalStampedChange)
    → hi ≤ u64_max
    → InOrder lo cs hi
    → pending (cursor_after from (take k (pending from cs))) cs ≡ drop k (pending from cs)
unfolding cursor_after
pending-cursor_after zero from lo hi cs top o = refl
pending-cursor_after (suc k) from lo hi [] top o = refl
pending-cursor_after (suc k) from lo hi (c ∷ cs) top o = elim (Bool-cases (leb from c.seq_no)) [
  | inl here ↦
      let next = next_seq c.seq_no in
      let below = InOrder-le (suc c.seq_no) hi cs o.1 in
      let same : pending from cs ≡ pending next cs =
        pending_all from (suc c.seq_no) hi cs (ground arith) o.1
        ∙ sym (pending_all next (suc c.seq_no) hi cs (omega arith) o.1) in
      let q = cursor_after next (take k (pending next cs)) in
      let far : leb q c.seq_no ≡ false =
        ground (arith, le-cursor_after k next next (suc c.seq_no) hi cs top o.1 (omega arith)) in
      let whole : pending from (c ∷ cs) ≡ c ∷ pending next cs = rw (here, same) refl in
      subst (λ l. pending (cursor_after from (take (suc k) l)) (c ∷ cs) ≡ drop (suc k) l)
        (sym whole) (rw far (pending-cursor_after k next (suc c.seq_no) hi cs top o.1))
  | inr past ↦
      let q = cursor_after from (take (suc k) (pending from cs)) in
      let far : leb q c.seq_no ≡ false =
        ground
          (arith, le-cursor_after (suc k) from from (suc c.seq_no) hi cs top o.1 (omega arith)) in
      let whole : pending from (c ∷ cs) ≡ pending from cs = rw past refl in
      subst (λ l. pending (cursor_after from (take (suc k) l)) (c ∷ cs) ≡ drop (suc k) l)
        (sym whole) (rw far (pending-cursor_after (suc k) from (suc c.seq_no) hi cs top o.1))
]

-- Decoding and cursors split at an append.
decoded-append :
    (json : Json) (xs ys : List InternalStampedChange)
    → decoded json (xs ++ ys) ≡ decoded json xs ++ decoded json ys
unfolding decoded
decoded-append json [] ys = refl
decoded-append json (c ∷ xs) ys = ground (arith, decoded-append json xs ys)

cursor_after-append :
    (next : SeqNo) (xs ys : List InternalStampedChange)
    → cursor_after next (xs ++ ys) ≡ cursor_after (cursor_after next xs) ys
unfolding cursor_after
cursor_after-append next [] ys = refl
cursor_after-append next (c ∷ xs) ys = cursor_after-append (next_seq c.seq_no) xs ys

take-nil {ℓ} : {A : Type ℓ} (n : ℕ) → take {A = A} n [] ≡ []
take-nil zero = refl
take-nil (suc n) = refl

take-add {ℓ} :
    {A : Type ℓ} (m n : ℕ) (xs : List A) → take (m + n) xs ≡ take m xs ++ take n (drop m xs)
take-add zero n xs = ap (λ (k : ℕ). take k xs) (omega arith)
take-add (suc m) n [] = take-nil (suc m + n) ∙ sym (take-nil n)
take-add (suc m) n (x ∷ xs) =
    ap (λ (k : ℕ). take k (x ∷ xs)) (add_suc m n) ∙ ap (◌∷◌ x) (take-add m n xs)
  where
    add_suc : (a b : ℕ) → suc a + b ≡ suc (a + b)
    add_suc a b = omega arith

more_left :
    (m n : ℕ) (xs : List InternalStampedChange)
    → ltb n (length (drop m xs)) ≡ ltb (m + n) (length xs)
more_left m n xs = ground (arith, length-drop m xs)

-- Two pulls in a row, the second from the cursor that the first returned, give together what one
-- pull of the added size gives: nothing is lost, repeated or reordered. The log is in order and the
-- counter has not reached its maximum.
pub pull_changes_since_resumes :
    (json : Json) (stream_id : StreamId) (log : ChangeLog) (from m n : ℕ)
    → log.next_seq_no < u64_max
    → InOrder 0 log.changes log.next_seq_no
    → let first = pull_changes_since json stream_id log from m in
      let second = pull_changes_since json stream_id log first.next_seq_no n in
      let whole = pull_changes_since json stream_id log from (m + n) in
      (first.changes ++ second.changes ≡ whole.changes)
      × (second.next_seq_no ≡ whole.next_seq_no)
      × (second.truncated ≡ whole.truncated)
pull_changes_since_resumes json stream_id log from m n top o =
    let start = effective_from log.compacted_before_seq_no from in
    let cs = log.changes in
    let next = cursor_after start (take m (pending start cs)) in
    let rest : pending next cs ≡ drop m (pending start cs) =
      pending-cursor_after m start 0 log.next_seq_no cs (omega arith) o in
    let forward : start ≤ next =
      le-cursor_after m start start 0 log.next_seq_no cs (omega arith) o (omega arith) in
    let same : effective_from log.compacted_before_seq_no next ≡ next = ground arith in
    let batch = take m (pending start cs) in
    rw
      (
        pull_changes_since_lem json stream_id log from m,
        pull_changes_since_lem json stream_id log next n,
        pull_changes_since_lem json stream_id log from (m + n),
        same,
        rest,
        take-add m n (pending start cs),
      )
      (
        sym (decoded-append json batch (take n (drop m (pending start cs)))),
        sym (cursor_after-append start batch (take n (drop m (pending start cs)))),
        more_left m n (pending start cs),
      )
