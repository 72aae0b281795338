-- ===== src/Runtime/Db.antt =====
-- crates/moire-runtime/src/db.rs: `RuntimeDb`. The fields of the change stream are the record
-- `ChangeLog`. A method that mutates `self` returns the new value; one that may panic returns a
-- `Result`. What the methods read outside the database is an argument: the identifiers of the
-- process scope and of the current task, the clock, fresh identifiers, the serializer.
pub mod Entities
pub mod Removal
pub mod Events
pub mod Ring
pub mod References
use peeps.Prelude.{
  ℕ, ◌+◌, ◌-◌, Bool, true, false, Option, none, some, List, [], ◌∷◌, ◌++◌, String, map, length,
  retain, Ord, eqb, string_ord, pair_ord, is_some, is_some_and, ltb, ◌==◌, if◌then◌else◌, ◌&&◌,
  ◌||◌, not, Result, ok, err, ◌>>=◌,
}
use peeps.BTreeMap.{BTreeMap, get, insert, remove, contains_key, keys}
use peeps.Trace.{BacktraceId}
use peeps.Types.{
  EntityId, ScopeId, PTime, Entity, Scope, Edge, EdgeKind, new_edge, Event, EventTarget,
}
use peeps.Types.Bodies.{
  EntityBody, task, future, lock, mpsc_tx, mpsc_rx, broadcast_tx, broadcast_rx, watch_tx, watch_rx,
  oneshot_tx, oneshot_rx, semaphore, notify, once_cell,
}
use peeps.Types.Change.{StreamId, StreamCursor}
use peeps.Runtime.Log.{ChangeLog, InternalChange, EdgeKey, edge_key, edge_key_ord, push}
use peeps.Runtime.Log.Decode.{Json}

pub record RuntimeDb : Type 0 where
  pub stream_id : StreamId
  pub log : ChangeLog
  pub entities : BTreeMap EntityId Entity
  pub scopes : BTreeMap ScopeId Scope
  pub task_scope_ids : BTreeMap String ScopeId
  pub entity_scope_links : BTreeMap (EntityId × ScopeId) (Unit {0})
  pub edges : BTreeMap EdgeKey Edge
  pub events : List Event
  pub max_events : ℕ
  pub event_entity_refs : BTreeMap EntityId ℕ

-- `current_process_scope_id()`, `current_tokio_task_key()`, `PTime::now()`, `next_scope_id()`.
pub record Context : Type 0 where
  pub process_scope_id : Option ScopeId
  pub tokio_task_key : Option String
  pub now : PTime
  pub fresh_scope_id : ScopeId

pub data Panic : Type 0 where
  no_process_scope_source : Panic
  serialization_failed : Panic
  body_serialization_failed : Panic

-- `RuntimeDb::new`.
unfoldable pub new : StreamId → ℕ → RuntimeDb
new stream_id max_events = record {
  stream_id = stream_id;
  log = record { next_seq_no = 0; compacted_before_seq_no = none; changes = [] };
  entities = [];
  scopes = [];
  task_scope_ids = [];
  entity_scope_links = [];
  edges = [];
  events = [];
  max_events = max_events;
  event_entity_refs = [];
}

-- `push_change`.
unfoldable pub push_change : RuntimeDb → InternalChange → RuntimeDb
push_change db change = record db { log = push db.log change }

-- `if let Some(json) = ... { self.push_change(...) }`.
abbrev pub push_if {ℓ} : {A : Type ℓ} → RuntimeDb → Option A → (A → InternalChange) → RuntimeDb
push_if db none change = db
push_if db (some json) change = push_change db (change json)

unfoldable pub should_link_entity_to_creation_task_scope : EntityBody → Bool
should_link_entity_to_creation_task_scope (future _) = true
should_link_entity_to_creation_task_scope (lock _) = true
should_link_entity_to_creation_task_scope (mpsc_tx _) = true
should_link_entity_to_creation_task_scope mpsc_rx = true
should_link_entity_to_creation_task_scope (broadcast_tx _) = true
should_link_entity_to_creation_task_scope (broadcast_rx _) = true
should_link_entity_to_creation_task_scope (watch_tx _) = true
should_link_entity_to_creation_task_scope watch_rx = true
should_link_entity_to_creation_task_scope (oneshot_tx _) = true
should_link_entity_to_creation_task_scope oneshot_rx = true
should_link_entity_to_creation_task_scope (semaphore _) = true
should_link_entity_to_creation_task_scope (notify _) = true
should_link_entity_to_creation_task_scope (once_cell _) = true
should_link_entity_to_creation_task_scope _ = false

-- `matches!(body, EntityBody::Future(_))`.
abbrev pub is_future : EntityBody → Bool
is_future (future _) = true
is_future _ = false

unfoldable pub link_entity_to_scope : RuntimeDb → EntityId → ScopeId → RuntimeDb
link_entity_to_scope db entity_id scope_id =
    if contains_key (entity_id, scope_id) db.entity_scope_links
    then db
    else push_change
        (record db { entity_scope_links = insert (entity_id, scope_id) tt db.entity_scope_links })
        (InternalChange.upsert_entity_scope_link entity_id scope_id)

unfoldable pub unlink_entity_from_scope : RuntimeDb → EntityId → ScopeId → RuntimeDb
unlink_entity_from_scope db entity_id scope_id =
    if contains_key (entity_id, scope_id) db.entity_scope_links
    then push_change
        (record db { entity_scope_links = remove (entity_id, scope_id) db.entity_scope_links })
        (InternalChange.remove_entity_scope_link entity_id scope_id)
    else db

unfoldable pub register_task_scope_id : RuntimeDb → String → ScopeId → RuntimeDb
register_task_scope_id db task_key scope_id = record db {
  task_scope_ids = insert task_key scope_id db.task_scope_ids;
}

unfoldable pub unregister_task_scope_id : RuntimeDb → String → ScopeId → RuntimeDb
unregister_task_scope_id db task_key scope_id =
    if is_some_and (λ registered. eqb registered scope_id) (get task_key db.task_scope_ids)
    then record db { task_scope_ids = remove task_key db.task_scope_ids }
    else db

unfoldable pub current_cursor : RuntimeDb → StreamCursor
current_cursor db = record { stream_id = db.stream_id; next_seq_no = db.log.next_seq_no }

-- `is_some_and(|e| e.removed_at.is_some())`.
abbrev pub is_dead : Option Entity → Bool
is_dead = is_some_and (λ e. is_some e.removed_at)

-- `if self.entities.contains_key(id) { self.link_entity_to_scope(id, scope) }`.
unfoldable pub link_if_present : RuntimeDb → EntityId → ScopeId → RuntimeDb
link_if_present db id scope_id =
    if contains_key id db.entities then link_entity_to_scope db id scope_id else db

-- The links of both endpoints to the process scope, where there is one.
unfoldable pub link_endpoints : Context → RuntimeDb → EntityId → EntityId → RuntimeDb
unfolding link_if_present
link_endpoints ctx db src dst = elim ctx.process_scope_id [
  | none ↦ db
  | some scope_id ↦ link_if_present (link_if_present db src scope_id) dst scope_id
]

-- The insertion of an edge that is not there yet.
unfoldable pub insert_edge :
    Json → RuntimeDb → EntityId → EntityId → EdgeKind → BacktraceId → RuntimeDb
insert_edge json db src dst kind backtrace =
    let edge = new_edge src dst kind backtrace in
    if contains_key (edge_key src dst kind) db.edges
    then db
    else push_if (record db { edges = insert (edge_key src dst kind) edge db.edges })
        (json.edge.to_vec edge) (InternalChange.upsert_edge src dst kind)

unfoldable pub upsert_edge :
    Context → Json → RuntimeDb → EntityId → EntityId → EdgeKind → BacktraceId → RuntimeDb
unfolding link_endpoints insert_edge
upsert_edge ctx json db src dst kind backtrace =
    if is_dead (get src db.entities) || is_dead (get dst db.entities)
    then db
    else insert_edge json (link_endpoints ctx db src dst) src dst kind backtrace

unfoldable pub remove_edge : RuntimeDb → EntityId → EntityId → EdgeKind → RuntimeDb
remove_edge db src dst kind =
    if contains_key (edge_key src dst kind) db.edges
    then push_change (record db { edges = remove (edge_key src dst kind) db.edges })
        (InternalChange.remove_edge src dst kind)
    else db
