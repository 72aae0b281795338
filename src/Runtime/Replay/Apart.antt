-- ===== src/Runtime/Replay/Apart.antt =====
-- crates/moire-runtime/src/db.rs: linking and the creation of task scopes, beside the entities.
use peeps.Prelude.{
  ◌≡◌, refl, ap, ◌∙◌, inl, inr, string_ord, pair_ord, not, arith, Bool-cases, Option-cases, ◌||◌,
  ◌&&◌, Result, ok, err, ◌>>=◌, Ensures, map_ok, is_some,
}
use peeps.BTreeMap.{BTreeMap, get, remove, contains_key}
use peeps.Types.{EntityId, ScopeId, Entity}
use peeps.Runtime.Log.Decode.{Json}
use peeps.Runtime.Db.{
  RuntimeDb, Context, Panic, push_change, link_entity_to_scope,
  should_link_entity_to_creation_task_scope, is_future,
}
use peeps.Runtime.Db.Entities.{
  new_task_scope, task_key_or_main, process_scope_source, create_task_scope,
  ensure_current_task_scope_id, link_entity_to_current_task_scope, link_process_scope,
  link_creation_scope,
}

abbrev pub with_entities : BTreeMap EntityId Entity → RuntimeDb → RuntimeDb
with_entities es db = record db { entities = es }

-- Links and task scopes do not look at the entities.
module _ (es : BTreeMap EntityId Entity) (db : RuntimeDb) where
  pub link-with_entities :
      (e : EntityId) (s : ScopeId)
      → link_entity_to_scope (with_entities es db) e s
        ≡ with_entities es (link_entity_to_scope db e s)
  unfolding link_entity_to_scope push_change
  link-with_entities e s = elim (Bool-cases (contains_key (e, s) db.entity_scope_links)) [
    | inl old ↦ rw old refl
    | inr new ↦ rw new refl
  ]

  pub create-with_entities :
      (ctx : Context) (json : Json)
      → create_task_scope ctx json (with_entities es db)
        ≡ map_ok (λ r. (with_entities es r.0, r.1)) (create_task_scope ctx json db)
  unfolding create_task_scope push_change
  create-with_entities ctx json = elim (Option-cases (process_scope_source ctx db.scopes)) [
    | inl e ↦ rw (e, create_task_scope) refl
    | inr (source, e) ↦ elim (Option-cases (json.scope.to_vec (new_task_scope ctx source))) [
      | inl unwritten ↦ rw (e, unwritten, create_task_scope) refl
      | inr (text, written) ↦ rw (e, written, create_task_scope) refl
    ]
  ]

pub ensure-with_entities :
    (es : BTreeMap EntityId Entity) (ctx : Context) (json : Json) (db : RuntimeDb)
    → ensure_current_task_scope_id ctx json (with_entities es db)
      ≡ map_ok (λ r. (with_entities es r.0, r.1)) (ensure_current_task_scope_id ctx json db)
unfolding ensure_current_task_scope_id
ensure-with_entities es ctx json db =
    let key = task_key_or_main ctx in
    elim (Option-cases (get key db.task_scope_ids)) [
      | inl e ↦ rw (e, ensure_current_task_scope_id) (create-with_entities es db ctx json)
      | inr (existing, e) ↦ elim (Bool-cases (contains_key existing db.scopes)) [
        | inl here ↦ rw (e, here, ensure_current_task_scope_id) refl
        | inr gone ↦
            rw (e, gone, ensure_current_task_scope_id)
              (create-with_entities es (record db { task_scope_ids = remove key db.task_scope_ids })
                ctx json)
      ]
    ]

pub current-with_entities :
    (es : BTreeMap EntityId Entity) (ctx : Context) (json : Json) (db : RuntimeDb) (id : EntityId)
    → link_entity_to_current_task_scope ctx json (with_entities es db) id
      ≡ map_ok (with_entities es) (link_entity_to_current_task_scope ctx json db id)
unfolding link_entity_to_current_task_scope
current-with_entities es ctx json db id =
    ap (λ r. r >>= link) (ensure-with_entities es ctx json db)
    ∙ linked (ensure_current_task_scope_id ctx json db)
  where
    link : RuntimeDb × ScopeId → Result Panic RuntimeDb
    link r = ok (link_entity_to_scope r.0 id r.1)

    linked :
        (r : Result Panic (RuntimeDb × ScopeId))
        → (map_ok (λ r. (with_entities es r.0, r.1)) r >>= link)
          ≡ map_ok (with_entities es) (r >>= link)
    linked (ok (d, s)) = ap ok (link-with_entities es d id s)
    linked (err x) = refl

pub creation-with_entities :
    (es : BTreeMap EntityId Entity) (ctx : Context) (json : Json) (db : RuntimeDb) (e : Entity)
    → link_creation_scope ctx json (with_entities es db) e
      ≡ map_ok (with_entities es) (link_creation_scope ctx json db e)
unfolding link_creation_scope
creation-with_entities es ctx json db e =
    elim (Bool-cases (
      should_link_entity_to_creation_task_scope e.body
      && (not (is_future e.body) || is_some ctx.tokio_task_key))) [
        | inl linked ↦ rw linked (current-with_entities es ctx json db e.id)
        | inr other ↦ rw other refl
      ]

pub process-with_entities :
    (es : BTreeMap EntityId Entity) (ctx : Context) (db : RuntimeDb) (id : EntityId)
    → link_process_scope ctx (with_entities es db) id
      ≡ with_entities es (link_process_scope ctx db id)
process-with_entities es ctx db id = elim (Option-cases ctx.process_scope_id) [
  | inl e ↦ rw e refl
  | inr (s, e) ↦ rw e (link-with_entities es db id s)
]

-- A step that commutes with replacing the entities leaves them alone.
pub same_entities :
    (es : BTreeMap EntityId Entity) (r : Result Panic RuntimeDb)
    → r ≡ map_ok (with_entities es) r
    → Ensures (λ d. d.entities ≡ es) r
same_entities es (ok d) h = ground arith
same_entities es (err e) h = tt
