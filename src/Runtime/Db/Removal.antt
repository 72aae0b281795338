-- ===== src/Runtime/Db/Removal.antt =====
-- crates/moire-runtime/src/db.rs: `remove_entity` and `remove_scope`.
use peeps.Prelude.{
  Bool, none, some, List, [], ◌∷◌, string_ord, pair_ord, eqb, is_some, not, if◌then◌else◌, ◌||◌,
  retain,
}
use peeps.BTreeMap.{BTreeMap, get, insert, remove, contains_key, keys}
use peeps.BTreeMap
use peeps.Types.{EntityId, ScopeId, Entity}
use peeps.Runtime.Log.{InternalChange, EdgeKey, edge_key_ord}
use peeps.Runtime.Log.Decode.{Json}
use peeps.Runtime.Db.{RuntimeDb, Context, push_change, push_if, unlink_entity_from_scope}

-- The collected pairs, unlinked one after another.
unfoldable pub unlink_all : RuntimeDb → List (EntityId × ScopeId) → RuntimeDb
unlink_all db [] = db
unlink_all db ((entity_id, scope_id) ∷ rest) =
    unlink_all (unlink_entity_from_scope db entity_id scope_id) rest

-- `&k.src == id || &k.dst == id`.
abbrev pub is_incident : EntityId → EdgeKey → Bool
is_incident id key = eqb key.src id || eqb key.dst id

-- One `RemoveEdge` for each edge that `retain` dropped.
unfoldable pub push_removed_edges : RuntimeDb → List EdgeKey → RuntimeDb
push_removed_edges db [] = db
push_removed_edges db (key ∷ rest) =
    push_removed_edges (push_change db (InternalChange.remove_edge key.src key.dst key.kind)) rest

-- `self.edges.retain(...)` with the changes that it leads to.
unfoldable pub drop_incident_edges : RuntimeDb → EntityId → RuntimeDb
unfolding push_removed_edges
drop_incident_edges db id =
    push_removed_edges
      (record db { edges = BTreeMap.retain (λ key _. not (is_incident id key)) db.edges })
      (retain (is_incident id) (keys db.edges))

unfoldable pub unlink_entity : RuntimeDb → EntityId → RuntimeDb
unlink_entity db id = unlink_all db (retain (λ link. eqb link.0 id) (keys db.entity_scope_links))

-- The entity leaves the map and the clients hear of it.
unfoldable pub drop_entity : RuntimeDb → EntityId → RuntimeDb
drop_entity db id =
    push_change (record db { entities = remove id db.entities }) (InternalChange.remove_entity id)

-- `remove_entity` of an entity that is alive.
unfoldable pub kill_entity : Context → Json → RuntimeDb → EntityId → Entity → RuntimeDb
unfolding unlink_entity drop_incident_edges drop_entity
kill_entity ctx json db id entity =
    let dead = record entity { removed_at = some ctx.now } in
    let marked = record db { entities = insert id dead db.entities } in
    let detached = drop_incident_edges (unlink_entity marked id) id in
    let announced = push_if detached (json.entity.to_vec dead) (InternalChange.upsert_entity id) in
    if contains_key id announced.event_entity_refs then announced else drop_entity announced id

unfoldable pub remove_entity : Context → Json → RuntimeDb → EntityId → RuntimeDb
unfolding kill_entity
remove_entity ctx json db id = elim (get id db.entities) [
  | none ↦ db
  | some entity ↦ if is_some entity.removed_at then db else kill_entity ctx json db id entity
]

unfoldable pub remove_scope : RuntimeDb → ScopeId → RuntimeDb
unfolding unlink_all
remove_scope db id =
    if contains_key id db.scopes
    then (let dropped = record db {
      scopes = remove id db.scopes;
      task_scope_ids = BTreeMap.retain (λ _ scope_id. not (eqb scope_id id)) db.task_scope_ids;
    } in
        push_change
          (unlink_all dropped (retain (λ link. eqb link.1 id) (keys dropped.entity_scope_links)))
          (InternalChange.remove_scope id))
    else db
