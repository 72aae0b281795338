-- ===== src/Runtime/Replay/Creation.antt =====
-- crates/moire-runtime/src/db.rs: the methods that create entities and task scopes, against the
-- change stream.
use mathlib.Core.Path.{subst}
use peeps.Prelude.{
  ◌≡◌, refl, ap, sym, ◌∙◌, inl, inr, true, some, string_ord, pair_ord, not, arith, Bool-cases,
  Option-cases, ◌||◌, ◌&&◌, Result, ok, err, ◌>>=◌, Ensures, Total, Total-intro, is_ok, is_ok-bind,
  Ensures-bind, Ensures-mono, map_ok, is_some,
}
use peeps.BTreeMap.{BTreeMap, get, insert, remove, contains_key}
use peeps.Trace.{BacktraceId}
use peeps.Types.{EntityId, ScopeId, Entity, Scope}
use peeps.Runtime.Log.{InternalChange}
use peeps.Runtime.Log.Decode.{Json, to_change}
use peeps.Runtime.Db.{
  RuntimeDb, Context, Panic, push_change, push_if, link_entity_to_scope,
  should_link_entity_to_creation_task_scope, is_future,
}
use peeps.Runtime.Db.Entities.{
  upsert_scope, new_task_scope, task_key_or_main, process_scope_source, create_task_scope,
  ensure_current_task_scope_id, link_entity_to_current_task_scope, link_process_scope,
  link_creation_scope, upsert_entity,
}
use peeps.Runtime.Replay.{
  Refines, Serializes, Refines-refl, Refines-trans, Refines-push, Refines-silent,
}
use peeps.Runtime.Replay.Apart.{
  with_entities, creation-with_entities, process-with_entities, same_entities,
}
use peeps.Runtime.Replay.Links.{link_entity_to_scope-Refines}

upsert_scope-Refines :
    (json : Json) (db : RuntimeDb) (scope : Scope)
    → Serializes json.scope scope
    → Refines json db (upsert_scope json db scope)
unfolding upsert_scope to_change
upsert_scope-Refines json db scope (text, written, read) =
    rw written (Refines-push db _ (InternalChange.upsert_scope scope.id text) refl (rw read refl))

module _ (ctx : Context) (json : Json)
    (scopes : (source : BacktraceId) → Serializes json.scope (new_task_scope ctx source)) where
  create_task_scope-Refines :
      (db : RuntimeDb) → Ensures (λ r. Refines json db r.0) (create_task_scope ctx json db)
  unfolding create_task_scope
  create_task_scope-Refines db = elim (Option-cases (process_scope_source ctx db.scopes)) [
    | inl e ↦ rw (e, Ensures) tt
    | inr (source, e) ↦
        let db' = upsert_scope json db (new_task_scope ctx source) in
        rw (e, Ensures)
          (Refines-trans db db' _
            (upsert_scope-Refines json db (new_task_scope ctx source) (scopes source))
            (Refines-silent db' _ refl refl))
  ]

  ensure_current_task_scope_id-Refines :
      (db : RuntimeDb)
      → Ensures (λ r. Refines json db r.0) (ensure_current_task_scope_id ctx json db)
  unfolding ensure_current_task_scope_id
  ensure_current_task_scope_id-Refines db =
      let key = task_key_or_main ctx in
      elim (Option-cases (get key db.task_scope_ids)) [
        | inl e ↦ rw (e, Ensures) (create_task_scope-Refines db)
        | inr (existing, e) ↦ elim (Bool-cases (contains_key existing db.scopes)) [
          | inl here ↦ rw (e, here, Ensures) (Refines-refl db)
          | inr gone ↦
              let stale = record db { task_scope_ids = remove key db.task_scope_ids } in
              rw (e, gone, Ensures)
                (Ensures-mono (λ r. Refines json stale r.0) (λ r. Refines json db r.0)
                  (create_task_scope ctx json stale) (create_task_scope-Refines stale)
                  λ r step. Refines-trans db stale r.0 (Refines-silent db stale refl refl) step)
        ]
      ]

  pub link_entity_to_current_task_scope-Refines :
      (db : RuntimeDb) (id : EntityId)
      → Ensures (Refines json db) (link_entity_to_current_task_scope ctx json db id)
  unfolding link_entity_to_current_task_scope
  link_entity_to_current_task_scope-Refines db id =
      Ensures-bind (λ r. Refines json db r.0) (Refines json db)
        (ensure_current_task_scope_id ctx json db) _ (ensure_current_task_scope_id-Refines db)
        λ r step. Refines-trans db r.0 _ step (link_entity_to_scope-Refines json r.0 id r.1)

  link_creation_scope-Refines :
      (db : RuntimeDb) (entity : Entity)
      → Ensures (Refines json db) (link_creation_scope ctx json db entity)
  unfolding link_creation_scope
  link_creation_scope-Refines db entity =
      elim (Bool-cases (
        should_link_entity_to_creation_task_scope entity.body
        && (not (is_future entity.body) || is_some ctx.tokio_task_key))) [
          | inl e ↦ rw e (link_entity_to_current_task_scope-Refines db entity.id)
          | inr e ↦ rw e (Refines-refl db)
        ]

  link_process_scope-Refines :
      (db : RuntimeDb) (id : EntityId) → Refines json db (link_process_scope ctx db id)
  link_process_scope-Refines db id = elim (Option-cases ctx.process_scope_id) [
    | inl e ↦ rw e (Refines-refl db)
    | inr (s, e) ↦ rw e (link_entity_to_scope-Refines json db id s)
  ]

  -- The last step of `upsert_entity`, on a database whose links are made.
  announce-Refines :
      (before : RuntimeDb) (entity : Entity) (es : BTreeMap EntityId Entity)
      (r : Result Panic RuntimeDb)
      → Serializes json.entity entity
      → Ensures (Refines json before) r
      → Ensures (λ d. d.entities ≡ es) r
      → Ensures (Refines json before) (
          map_ok (with_entities (insert entity.id entity es)) r >>= λ linked.
          ok (push_if linked (json.entity.to_vec entity) (InternalChange.upsert_entity entity.id)))
  unfolding to_change
  announce-Refines before entity es (ok d) (text, written, read) step same = rw written (
      Refines-trans before d _ step (
        Refines-push d (with_entities (insert entity.id entity es) d)
          (InternalChange.upsert_entity entity.id text) refl (rw (read, same) refl)))
  announce-Refines before entity es (err e) ser step same = tt

  upsert_entity_steps :
      (db : RuntimeDb) (entity : Entity)
      → Serializes json.entity entity
      → Ensures (Refines json db) (upsert_entity ctx json db entity)
  unfolding upsert_entity
  upsert_entity_steps db entity ser =
      let es = insert entity.id entity db.entities in
      let scoped = link_process_scope ctx db entity.id in
      let created = link_creation_scope ctx json scoped entity in
      let path =
        ap (λ (d : RuntimeDb). link_creation_scope ctx json d entity)
          (process-with_entities es ctx db entity.id)
        ∙ creation-with_entities es ctx json scoped entity in
      let silent =
        ap (λ (d : RuntimeDb). link_creation_scope ctx json d entity)
          (process-with_entities db.entities ctx db entity.id)
        ∙ creation-with_entities db.entities ctx json scoped entity in
      subst
        (λ r. Ensures (Refines json db) (
          r >>= λ linked.
          ok (push_if linked (json.entity.to_vec entity) (InternalChange.upsert_entity entity.id))))
        (sym path)
        (announce-Refines db entity db.entities created ser
          (Ensures-mono (Refines json scoped) (Refines json db) created
            (link_creation_scope-Refines scoped entity)
            (λ d step. Refines-trans db scoped d (link_process_scope-Refines db entity.id) step))
          (same_entities db.entities created silent))

-- `ensure_current_task_scope_id` and what calls it do not panic while the process scope is recorded.
module _ (ctx : Context) (json : Json) (source : BacktraceId) where
  ensure_current_task_scope_id-is_ok :
      (db : RuntimeDb)
      → process_scope_source ctx db.scopes ≡ some source
      → is_ok (ensure_current_task_scope_id ctx json db) ≡ true
  unfolding ensure_current_task_scope_id create_task_scope
  ensure_current_task_scope_id-is_ok db known =
      elim (Option-cases (get (task_key_or_main ctx) db.task_scope_ids)) [
        | inl e ↦ rw (e, known, ensure_current_task_scope_id, create_task_scope) refl
        | inr (existing, e) ↦ elim (Bool-cases (contains_key existing db.scopes)) [
          | inl here ↦ rw (e, here, ensure_current_task_scope_id) refl
          | inr gone ↦ rw (e, gone, known, ensure_current_task_scope_id, create_task_scope) refl
        ]
      ]

  link_creation_scope-is_ok :
      (db : RuntimeDb) (entity : Entity)
      → process_scope_source ctx db.scopes ≡ some source
      → is_ok (link_creation_scope ctx json db entity) ≡ true
  unfolding link_creation_scope link_entity_to_current_task_scope
  link_creation_scope-is_ok db entity known =
      elim (Bool-cases (
        should_link_entity_to_creation_task_scope entity.body
        && (not (is_future entity.body) || is_some ctx.tokio_task_key))) [
          | inl e ↦ rw e (
              is_ok-bind (ensure_current_task_scope_id ctx json db) _
              ∙ ensure_current_task_scope_id-is_ok db known)
          | inr e ↦ rw e refl
        ]

scopes-link :
    (db : RuntimeDb) (e : EntityId) (s : ScopeId) → (link_entity_to_scope db e s).scopes ≡ db.scopes
unfolding link_entity_to_scope push_change
scopes-link db e s = ground arith

scopes-process :
    (ctx : Context) (db : RuntimeDb) (id : EntityId)
    → (link_process_scope ctx db id).scopes ≡ db.scopes
scopes-process ctx db id = elim (Option-cases ctx.process_scope_id) [
  | inl e ↦ rw e refl
  | inr (s, e) ↦ rw e (scopes-link db id s)
]

-- While the process scope is recorded, `upsert_entity` returns, and the changes that it pushed
-- (links, at most one task scope, and the entity), replayed on the graph before, give the graph
-- after. The serializer writes the entity and the task scopes that this context can create, and
-- reads them back.
pub upsert_entity-Refines :
    (ctx : Context) (json : Json) (db : RuntimeDb) (entity : Entity) (source : BacktraceId)
    → process_scope_source ctx db.scopes ≡ some source
    → ((source : BacktraceId) → Serializes json.scope (new_task_scope ctx source))
    → Serializes json.entity entity
    → Total (Refines json db) (upsert_entity ctx json db entity)
unfolding upsert_entity
upsert_entity-Refines ctx json db entity source known scopes ser =
    let inserted = with_entities (insert entity.id entity db.entities) db in
    let scoped = link_process_scope ctx inserted entity.id in
    Total-intro (Refines json db) (upsert_entity ctx json db entity)
      (is_ok-bind (link_creation_scope ctx json scoped entity) _
        ∙ link_creation_scope-is_ok ctx json source scoped entity
            (ap (process_scope_source ctx) (scopes-process ctx inserted entity.id) ∙ known))
      (upsert_entity_steps ctx json scopes db entity ser)
