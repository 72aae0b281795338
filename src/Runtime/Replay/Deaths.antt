-- ===== src/Runtime/Replay/Deaths.antt =====
-- crates/moire-runtime/src/db.rs: `remove_entity` and `remove_scope` against the change stream.
use peeps.Prelude.{
  if◌then◌else◌, ℕ, ◌≡◌, refl, ap, sym, ◌∙◌, ◌⊎◌, inl, inr, Bool, true, false, Option, none, some,
  List, [], ◌∷◌, ◌++◌, String, string_ord, pair_ord, not, arith, Bool-cases, Option-cases, is_some,
  eqb, map,
}
use peeps.Prelude
use mathlib.Core.Path.{subst}
use peeps.BTreeMap.{BTreeMap, get, insert, remove, contains_key, keys}
use peeps.BTreeMap
use peeps.Types.{EntityId, ScopeId, Entity}
use peeps.Runtime.Log.{InternalChange, edge_key_ord}
use peeps.Runtime.Log.Decode.{Json, to_change}
use peeps.Runtime.Db.{RuntimeDb, Context, push_change, push_if}
use peeps.Runtime.Db.Removal.{
  unlink_all, is_incident, drop_entity, kill_entity, remove_entity, remove_scope,
}
use peeps.Runtime.Replay.{graph, Refines, Serializes, Refines-refl, Refines-trans, Refines-push}
use peeps.Runtime.Replay.Updates.{IsKeyed}
use peeps.Runtime.Replay.Removal.{
  wearing, detached, unlink_all-Refines, unlink_all-wears, detached-wears, detach-wearing,
  unlink_all-wearing, detached-Refines, detached-edges,
}

-- Dropping an entity that has no edge left.
pub drop_entity-Refines :
    (json : Json) (db : RuntimeDb) (id : EntityId)
    → BTreeMap.retain (λ key _. not (is_incident id key)) db.edges ≡ db.edges
    → Refines json db (drop_entity db id)
unfolding drop_entity to_change
drop_entity-Refines json db id bare =
    Refines-push db (record db { entities = remove id db.entities })
      (InternalChange.remove_entity id) refl
      (ap (λ m. record (graph db) { entities = remove id db.entities; edges = m }) (sym bare))

module _ (ctx : Context) (json : Json) (db : RuntimeDb) (id : EntityId) where
  -- What `kill_entity` leaves when an event still refers to the entity.
  abbrev announced : Entity → List ℕ → RuntimeDb
  announced dead text =
      push_change
        (wearing (insert id dead db.entities) db.scopes db.task_scope_ids (detached db id))
        (InternalChange.upsert_entity id text)

  announced-Refines :
      (dead : Entity) (text : List ℕ)
      → json.entity.from_slice text ≡ some dead
      → dead.id ≡ id
      → Refines json db (announced dead text)
  unfolding to_change
  announced-Refines dead text read same =
      let d = detached db id in
      let worn = wearing (insert id dead db.entities) db.scopes db.task_scope_ids d in
      Refines-trans db d (announced dead text) (detached-Refines json db id) (
        Refines-push d worn (InternalChange.upsert_entity id text) refl (
          rw read (
            ap
              (λ (m : RuntimeDb). record (graph d) {
                entities = insert id dead m.entities;
                scopes = m.scopes;
              })
              (sym (detached-wears db id))
            ∙ ap (λ i. record (graph d) { entities = insert i dead d.entities }) (sym same))))

  kill_entity-Refines :
      (entity : Entity)
      → entity.id ≡ id
      → Serializes json.entity (record entity { removed_at = some ctx.now })
      → Refines json db (kill_entity ctx json db id entity)
  unfolding kill_entity push_change
  kill_entity-Refines entity same (text, written, read) =
      let dead = record entity { removed_at = some ctx.now } in
      let here = announced-Refines dead text read same in
      let a = announced dead text in
      subst
        (λ d. Refines json db (
          let b = push_if d (json.entity.to_vec dead) (InternalChange.upsert_entity id) in
          if contains_key id b.event_entity_refs then b else drop_entity b id))
        (sym (detach-wearing (insert id dead db.entities) db.scopes db.task_scope_ids db id))
        (rw written (elim (Bool-cases (contains_key id a.event_entity_refs)) [
          | inl held ↦ rw held here
          | inr free ↦ rw free (
              Refines-trans db a (drop_entity a id) here
                (drop_entity-Refines json a id (detached-edges db id)))
        ]))

-- The replay of what `remove_entity` pushed gives the graph that it leaves, whether the entity is
-- alive, dead or unknown and whether or not an event still refers to it. Every entity stands under
-- its own identifier, and the serializer writes the dead entity and reads it back.
pub remove_entity-Refines :
    (ctx : Context) (json : Json) (db : RuntimeDb) (id : EntityId)
    → IsKeyed db.entities
    → ((e : Entity)
        → get id db.entities ≡ some e
        → Serializes json.entity (record e { removed_at = some ctx.now }))
    → Refines json db (remove_entity ctx json db id)
unfolding remove_entity IsKeyed
remove_entity-Refines ctx json db id keyed ser = elim (Option-cases (get id db.entities)) [
  | inl gone ↦ rw (gone, remove_entity) (Refines-refl db)
  | inr (e, found) ↦ elim (Bool-cases (is_some e.removed_at)) [
    | inl dead ↦ rw (found, dead, remove_entity) (Refines-refl db)
    | inr alive ↦
        rw (found, alive, remove_entity)
          (kill_entity-Refines ctx json db id e (keyed id e found) (ser e found))
  ]
]

-- `remove_scope` pushes the removal of the links of the scope and of the scope, or nothing for an
-- unknown scope: the replay of what it pushed gives the graph that it leaves.
pub remove_scope-Refines :
    (json : Json) (db : RuntimeDb) (id : ScopeId) → Refines json db (remove_scope db id)
unfolding remove_scope to_change
remove_scope-Refines json db id = elim (Bool-cases (contains_key id db.scopes)) [
  | inr unknown ↦ rw unknown (Refines-refl db)
  | inl known ↦
      let links =
        Prelude.retain (λ (link : EntityId × ScopeId). eqb link.1 id)
          (keys db.entity_scope_links) in
      let kept = BTreeMap.retain (λ _ scope_id. not (eqb scope_id id)) db.task_scope_ids in
      let u = unlink_all db links in
      let worn = wearing db.entities (remove id db.scopes) kept u in
      rw known (
        subst (λ d. Refines json db (push_change d (InternalChange.remove_scope id)))
          (sym (unlink_all-wearing db.entities (remove id db.scopes) kept db links))
          (Refines-trans db u (push_change worn (InternalChange.remove_scope id))
            (unlink_all-Refines json db links)
            (Refines-push u worn (InternalChange.remove_scope id) refl (
              ap
                (λ (m : RuntimeDb). record (graph u) {
                  entities = m.entities;
                  scopes = remove id m.scopes;
                })
                (sym (unlink_all-wears db links))))))
]
