-- ===== src/Runtime/Db/Entities.antt =====
-- crates/moire-runtime/src/db.rs: the methods that create and change entities and scopes.
use Prim.Native.String.{◌++◌ as str_append}
use peeps.Prelude.{
  List, ℕ, Bool, true, false, Option, none, some, String, string_ord, nat_ord, pair_ord, eqb,
  is_some, ◌==◌, not, if◌then◌else◌, ◌&&◌, ◌||◌, Result, ok, err, ◌>>=◌,
}
use peeps.BTreeMap.{BTreeMap, get, insert, remove, contains_key}
use peeps.Trace.{BacktraceId}
use peeps.Types.{EntityId, ScopeId, Entity, Scope}
use peeps.Types.Bodies.{EntityBody, task}
use peeps.Runtime.Log.{InternalChange}
use peeps.Runtime.Log.Decode.{Json}
use peeps.Runtime.Db.{
  RuntimeDb, Context, Panic, no_process_scope_source, serialization_failed,
  body_serialization_failed, push_change, push_if, should_link_entity_to_creation_task_scope,
  is_future, link_entity_to_scope,
}

unfoldable pub upsert_scope : Json → RuntimeDb → Scope → RuntimeDb
upsert_scope json db scope =
    push_if (record db { scopes = insert scope.id scope db.scopes }) (json.scope.to_vec scope)
      (InternalChange.upsert_scope scope.id)

-- `current_tokio_task_key().unwrap_or_else(|| "main")`.
abbrev pub task_key_or_main : Context → String
task_key_or_main ctx = elim ctx.tokio_task_key [ none ↦ "main" | some key ↦ key ]

-- The backtrace of the process scope, if that scope is recorded.
abbrev pub process_scope_source : Context → BTreeMap ScopeId Scope → Option BacktraceId
process_scope_source ctx scopes = elim ctx.process_scope_id [
  | none ↦ none
  | some id ↦ elim (get id scopes) [ none ↦ none | some scope ↦ some scope.backtrace ]
]

-- `Scope::new` for the task of the context.
abbrev pub new_task_scope : Context → BacktraceId → Scope
new_task_scope ctx source = record {
  id = ctx.fresh_scope_id;
  birth = ctx.now;
  backtrace = source;
  name = str_append "task." (task_key_or_main ctx);
  body = task (task_key_or_main ctx);
}

-- The second half of `ensure_current_task_scope_id`: a new scope for the task.
unfoldable pub create_task_scope : Context → Json → RuntimeDb → Result Panic (RuntimeDb × ScopeId)
unfolding upsert_scope
create_task_scope ctx json db = elim (process_scope_source ctx db.scopes) [
  | none ↦ err no_process_scope_source
  | some source ↦
      let db' = upsert_scope json db (new_task_scope ctx source) in
      ok (
        record db' {
          task_scope_ids = insert (task_key_or_main ctx) ctx.fresh_scope_id db'.task_scope_ids;
        },
        ctx.fresh_scope_id,
      )
]

unfoldable pub ensure_current_task_scope_id :
    Context → Json → RuntimeDb → Result Panic (RuntimeDb × ScopeId)
unfolding create_task_scope
ensure_current_task_scope_id ctx json db =
    let key = task_key_or_main ctx in
    elim (get key db.task_scope_ids) [
      | none ↦ create_task_scope ctx json db
      | some existing ↦
          if contains_key existing db.scopes
          then ok (db, existing)
          else create_task_scope ctx json
              (record db { task_scope_ids = remove key db.task_scope_ids })
    ]

unfoldable pub link_entity_to_current_task_scope :
    Context → Json → RuntimeDb → EntityId → Result Panic RuntimeDb
link_entity_to_current_task_scope ctx json db entity_id = do
  (db', scope_id) ← ensure_current_task_scope_id ctx json db
  ok (link_entity_to_scope db' entity_id scope_id)

-- The link of a new entity to the process scope.
abbrev pub link_process_scope : Context → RuntimeDb → EntityId → RuntimeDb
link_process_scope ctx db id = elim ctx.process_scope_id [
  | none ↦ db
  | some scope_id ↦ link_entity_to_scope db id scope_id
]

-- The link of a new entity to the scope of the task that creates it.
unfoldable pub link_creation_scope : Context → Json → RuntimeDb → Entity → Result Panic RuntimeDb
link_creation_scope ctx json db entity =
    if should_link_entity_to_creation_task_scope entity.body
      && (not (is_future entity.body) || is_some ctx.tokio_task_key)
    then link_entity_to_current_task_scope ctx json db entity.id
    else ok db

unfoldable pub upsert_entity : Context → Json → RuntimeDb → Entity → Result Panic RuntimeDb
unfolding link_creation_scope
upsert_entity ctx json db entity = do
  let inserted = record db { entities = insert entity.id entity db.entities }
  linked ← link_creation_scope ctx json (link_process_scope ctx inserted entity.id) entity
  ok (push_if linked (json.entity.to_vec entity) (InternalChange.upsert_entity entity.id))

-- `rename_entity_and_maybe_upsert`, with its result beside the database.
unfoldable pub rename_entity_and_maybe_upsert :
    Json → RuntimeDb → EntityId → String → RuntimeDb × Bool
rename_entity_and_maybe_upsert json db id name = elim (get id db.entities) [
  | none ↦ (db, false)
  | some entity ↦
      let renamed = record entity { name = name } in
      if is_some entity.removed_at
      then (db, false)
      else if eqb entity.name name
      then (db, false)
      else (
        push_if (record db { entities = insert id renamed db.entities })
            (json.entity.to_vec renamed) (InternalChange.upsert_entity id),
        true,
      )
]

-- What `body_fingerprint` uses: the JSON of a body, and `DefaultHasher` over its bytes.
pub record Fingerprint : Type 0 where
  pub to_vec : EntityBody → Option (List ℕ)
  pub finish : List ℕ → ℕ

-- `body_fingerprint`.
unfoldable pub body_fingerprint : Fingerprint → EntityBody → Result Panic ℕ
body_fingerprint fingerprint body = elim (fingerprint.to_vec body) [
  | none ↦ err body_serialization_failed
  | some bytes ↦ ok (fingerprint.finish bytes)
]

-- `mutate_entity_body_and_maybe_upsert`. The body is written whether or not the fingerprint changed.
unfoldable pub mutate_entity_body_and_maybe_upsert :
    Fingerprint
    → Json
    → RuntimeDb
    → EntityId
    → (EntityBody → EntityBody)
    → Result Panic (RuntimeDb × Bool)
unfolding body_fingerprint
mutate_entity_body_and_maybe_upsert fingerprint json db id mutate = elim (get id db.entities) [
  | none ↦ ok (db, false)
  | some entity ↦
      let mutated = record entity { body = mutate entity.body } in
      let written = record db { entities = insert id mutated db.entities } in
      if is_some entity.removed_at then ok (db, false) else (do
        before ← body_fingerprint fingerprint entity.body
        after ← body_fingerprint fingerprint mutated.body
        if before == after then ok (written, false) else (elim (json.entity.to_vec mutated) [
          | none ↦ err serialization_failed
          | some text ↦ ok (push_change written (InternalChange.upsert_entity id text), true)
        ]))
]
