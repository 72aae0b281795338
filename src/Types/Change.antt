-- ===== src/Types/Change.antt =====
-- crates/moire-types/src/diff.rs: the change stream of one process.
use peeps.Prelude.{ℕ, Bool, Option, List, String, saturating_add}
use peeps.Types.{EntityId, ScopeId, Entity, Scope, Edge, EdgeKind, Event}

-- `SeqNo(u64)` with `ZERO` and `next`.
abbrev pub SeqNo : Type 0
SeqNo = ℕ

abbrev pub next_seq : SeqNo → SeqNo
next_seq s = saturating_add s 1

abbrev pub StreamId : Type 0
StreamId = String

abbrev pub CutId : Type 0
CutId = String

pub data Change : Type 0 where
  upsert_entity : Entity → Change
  upsert_scope : Scope → Change
  remove_entity : EntityId → Change
  remove_scope : ScopeId → Change
  upsert_entity_scope_link : EntityId → ScopeId → Change
  remove_entity_scope_link : EntityId → ScopeId → Change
  upsert_edge : Edge → Change
  remove_edge : EntityId → EntityId → EdgeKind → Change
  append_event : Event → Change

pub record StampedChange : Type 0 where
  pub seq_no : SeqNo
  pub change : Change

pub record PullChangesResponse : Type 0 where
  pub stream_id : StreamId
  pub from_seq_no : SeqNo
  pub next_seq_no : SeqNo
  pub changes : List StampedChange
  pub truncated : Bool
  pub compacted_before_seq_no : Option SeqNo

pub record StreamCursor : Type 0 where
  pub stream_id : StreamId
  pub next_seq_no : SeqNo

pub record CutRequest : Type 0 where
  pub cut_id : CutId

pub record CutAck : Type 0 where
  pub cut_id : CutId
  pub cursor : StreamCursor
