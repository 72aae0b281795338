-- ===== src/Runtime/Log/Decode.antt =====
-- crates/moire-runtime/src/db.rs: `to_change` and `pull_changes_since`.
use mathlib.Core.Option
use peeps.Prelude.{
  ℕ, ◌+◌, Bool, true, false, Option, none, some, List, [], ◌∷◌, string_ord, nat_ord, pair_ord, ltb,
  leb, ◌==◌, if◌then◌else◌,
}
use peeps.Wire.Frame.{Bytes}
use peeps.Types.{Entity, Scope, Edge, Event, edge_kind_ord}
use peeps.Types.Change.{SeqNo, next_seq, StreamId, Change, StampedChange, PullChangesResponse}
use peeps.Runtime.Log.{
  InternalChange, upsert_entity, upsert_scope, remove_entity, remove_scope,
  upsert_entity_scope_link, remove_entity_scope_link, upsert_edge, remove_edge, append_event,
  InternalStampedChange, ChangeLog,
}

-- The serializer, `facet_json::to_vec(_).ok()` and `facet_json::from_slice(_).ok()` of one type.
pub record Codec (A : Type 0) : Type 0 where
  pub to_vec : A → Option Bytes
  pub from_slice : Bytes → Option A

pub record Json : Type 0 where
  pub entity : Codec Entity
  pub scope : Codec Scope
  pub edge : Codec Edge
  pub event : Codec Event

-- `InternalStampedChange::to_change`.
unfoldable pub to_change : Json → InternalChange → Option Change
to_change json (upsert_entity id text) =
    Option.map Change.upsert_entity (json.entity.from_slice text)
to_change json (upsert_scope id text) = Option.map Change.upsert_scope (json.scope.from_slice text)
to_change json (remove_entity id) = some (Change.remove_entity id)
to_change json (remove_scope id) = some (Change.remove_scope id)
to_change json (upsert_entity_scope_link e s) = some (Change.upsert_entity_scope_link e s)
to_change json (remove_entity_scope_link e s) = some (Change.remove_entity_scope_link e s)
to_change json (upsert_edge src dst kind text) =
    Option.map Change.upsert_edge (json.edge.from_slice text)
to_change json (remove_edge src dst kind) = some (Change.remove_edge src dst kind)
to_change json (append_event text) = Option.map Change.append_event (json.event.from_slice text)

-- What the loop of `pull_changes_since` accumulates.
pub record Scanned : Type 0 where
  pub changes : List StampedChange
  pub next_seq_no : SeqNo
  pub truncated : Bool

abbrev pub push_decoded : SeqNo → Option Change → List StampedChange → List StampedChange
push_decoded seq none rest = rest
push_decoded seq (some change) rest = record { seq_no = seq; change = change } ∷ rest

-- The loop, `next` being `next_seq_no` so far.
unfoldable pub scan : Json → ℕ → SeqNo → ℕ → SeqNo → List InternalStampedChange → Scanned
scan json limit from scanned next [] = record {
  changes = [];
  next_seq_no = next;
  truncated = false;
}
scan json limit from scanned next (c ∷ cs) =
    let skipped = scan json limit from scanned next cs in
    let taken = scan json limit from (scanned + 1) (next_seq c.seq_no) cs in
    if ltb c.seq_no from
    then skipped
    else if leb limit scanned
    then record { changes = []; next_seq_no = next; truncated = true }
    else record taken { changes = push_decoded c.seq_no (to_change json c.change) taken.changes }

-- `changes.iter().any(|c| c.seq_no >= from)`.
abbrev pub any_from : SeqNo → List InternalStampedChange → Bool
any_from from [] = false
any_from from (c ∷ cs) = if leb from c.seq_no then true else any_from from cs

-- The cursor, moved up to what compaction left.
abbrev pub effective_from : Option SeqNo → SeqNo → SeqNo
effective_from none from = from
effective_from (some compacted) from = if ltb from compacted then compacted else from

unfoldable pub pull_changes_since : Json → StreamId → ChangeLog → SeqNo → ℕ → PullChangesResponse
unfolding scan
pull_changes_since json stream_id log from max_changes =
    let start = effective_from log.compacted_before_seq_no from in
    let scanned = scan json max_changes start 0 start log.changes in
    if max_changes == 0
    then record {
      stream_id = stream_id;
      from_seq_no = start;
      next_seq_no = start;
      changes = [];
      truncated = any_from start log.changes;
      compacted_before_seq_no = log.compacted_before_seq_no;
    }
    else record {
      stream_id = stream_id;
      from_seq_no = start;
      next_seq_no = scanned.next_seq_no;
      changes = scanned.changes;
      truncated = scanned.truncated;
      compacted_before_seq_no = log.compacted_before_seq_no;
    }
