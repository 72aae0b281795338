-- ===== src/Runtime/Replay/Keyed.antt =====
-- crates/moire-runtime/src/db.rs: every entity stands under its own identifier.
use mathlib.Core.Path.{subst}
use peeps.Prelude.{
  ◌≡◌, sym, inl, inr, some, String, string_ord, eqb, eqb_iff, is_some, Bool-cases, Option-cases,
  arith, if◌then◌else◌,
}
use peeps.BTreeMap.{BTreeMap, get, insert, remove, contains_key}
use peeps.BTreeMap.Laws.{get-insert, get-remove}
use peeps.Types.{EntityId, Entity}
use peeps.Runtime.Log.{InternalChange}
use peeps.Runtime.Log.Decode.{Json}
use peeps.Runtime.Db.{RuntimeDb, Context, push_change, push_if}
use peeps.Runtime.Db.Entities.{rename_entity_and_maybe_upsert}
use peeps.Runtime.Db.Removal.{drop_entity, kill_entity, remove_entity}
use peeps.Runtime.Replay.Updates.{IsKeyed}
use peeps.Runtime.Replay.Removal.{wearing, detached, detach-wearing}

insert-IsKeyed :
    (id : EntityId) (e : Entity) (es : BTreeMap EntityId Entity)
    → e.id ≡ id
    → IsKeyed es
    → IsKeyed (insert id e es)
unfolding IsKeyed
insert-IsKeyed id e es same keyed q x found =
    ground (arith, get-insert q id e es, keyed q x, eqb_iff q id, same)

remove-IsKeyed :
    (id : EntityId) (es : BTreeMap EntityId Entity) → IsKeyed es → IsKeyed (remove id es)
unfolding IsKeyed
remove-IsKeyed id es keyed q x found = ground (arith, get-remove q id es, keyed q x)

kill_entity-IsKeyed :
    (ctx : Context) (json : Json) (db : RuntimeDb) (id : EntityId) (entity : Entity)
    → entity.id ≡ id
    → IsKeyed db.entities
    → IsKeyed (kill_entity ctx json db id entity).entities
unfolding kill_entity push_change drop_entity
kill_entity-IsKeyed ctx json db id entity same keyed =
    let dead = record entity { removed_at = some ctx.now } in
    let es = insert id dead db.entities in
    let marked = insert-IsKeyed id dead db.entities same keyed in
    subst
      (λ (d : RuntimeDb).
        IsKeyed
          (let b = push_if d (json.entity.to_vec dead) (InternalChange.upsert_entity id) in
            if contains_key id b.event_entity_refs then b else drop_entity b id).entities)
      (sym (detach-wearing es db.scopes db.task_scope_ids db id))
      (elim (Option-cases (json.entity.to_vec dead)) [
        | inl unwritten ↦
            rw unwritten (swept (wearing es db.scopes db.task_scope_ids (detached db id)) marked)
        | inr (text, written) ↦ rw written (
            swept
              (push_change (wearing es db.scopes db.task_scope_ids (detached db id))
                (InternalChange.upsert_entity id text))
              marked)
      ])
  where
    swept :
        (b : RuntimeDb)
        → IsKeyed b.entities
        → IsKeyed (if contains_key id b.event_entity_refs then b else drop_entity b id).entities
    swept b h = elim (Bool-cases (contains_key id b.event_entity_refs)) [
      | inl held ↦ rw held h
      | inr free ↦ rw free (remove-IsKeyed id b.entities h)
    ]

-- `remove_entity` keeps every entity under its own identifier.
remove_entity-IsKeyed :
    (ctx : Context) (json : Json) (db : RuntimeDb) (id : EntityId)
    → IsKeyed db.entities
    → IsKeyed (remove_entity ctx json db id).entities
unfolding remove_entity IsKeyed
remove_entity-IsKeyed ctx json db id keyed = elim (Option-cases (get id db.entities)) [
  | inl gone ↦ rw (gone, remove_entity) keyed
  | inr (e, found) ↦ elim (Bool-cases (is_some e.removed_at)) [
    | inl dead ↦ rw (found, dead, remove_entity) keyed
    | inr alive ↦
        rw (found, alive, remove_entity)
          (kill_entity-IsKeyed ctx json db id e (keyed id e found) keyed)
  ]
]

-- A rename keeps every entity under its own identifier, whether or not it takes effect.
rename_entity_and_maybe_upsert-IsKeyed :
    (json : Json) (db : RuntimeDb) (id : EntityId) (name : String)
    → IsKeyed db.entities
    → IsKeyed (rename_entity_and_maybe_upsert json db id name).0.entities
unfolding rename_entity_and_maybe_upsert IsKeyed push_change
rename_entity_and_maybe_upsert-IsKeyed json db id name keyed =
    elim (Option-cases (get id db.entities)) [
      | inl gone ↦ rw (gone, rename_entity_and_maybe_upsert) keyed
      | inr (e, found) ↦
          let renamed = record e { name = name } in
          let after = insert-IsKeyed id renamed db.entities (keyed id e found) keyed in
          elim (Bool-cases (is_some e.removed_at)) [
            | inl dead ↦ rw (found, dead, rename_entity_and_maybe_upsert) keyed
            | inr alive ↦ elim (Bool-cases (eqb e.name name)) [
              | inl same ↦ rw (found, alive, same, rename_entity_and_maybe_upsert) keyed
              | inr other ↦ elim (Option-cases (json.entity.to_vec renamed)) [
                | inl unwritten ↦
                    rw (found, alive, other, unwritten, rename_entity_and_maybe_upsert) after
                | inr (text, written) ↦
                    rw (found, alive, other, written, rename_entity_and_maybe_upsert) after
              ]
            ]
          ]
    ]
