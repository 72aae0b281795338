-- ===== src/Runtime/Db/Events.antt =====
-- crates/moire-runtime/src/db.rs: `record_event`, the event ring and its reference counts.
use peeps.Prelude.{
  ◌+◌, ◌-◌, none, some, List, [], ◌∷◌, ◌++◌, string_ord, length, ltb, ◌==◌, if◌then◌else◌,
}
use peeps.BTreeMap.{get, insert, remove}
use peeps.Types.{EntityId, Event, EventTarget, entity, scope}
use peeps.Runtime.Log.{InternalChange}
use peeps.Runtime.Log.Decode.{Json}
use peeps.Runtime.Db.{RuntimeDb, is_dead, push_if}
use peeps.Runtime.Db.Removal.{drop_entity}

unfoldable pub sweep_dead_entity : RuntimeDb → EntityId → RuntimeDb
sweep_dead_entity db id = if is_dead (get id db.entities) then drop_entity db id else db

-- `*entry(id).or_insert(0) += 1` for an event about an entity.
unfoldable pub count_reference : RuntimeDb → EventTarget → RuntimeDb
count_reference db (scope id) = db
count_reference db (entity id) = record db {
  event_entity_refs =
      insert id (elim (get id db.event_entity_refs) [ none ↦ 1 | some n ↦ n + 1 ])
        db.event_entity_refs;
}

-- The body of the eviction loop for the event that left the ring.
unfoldable pub release_reference : RuntimeDb → EventTarget → RuntimeDb
release_reference db (scope id) = db
release_reference db (entity id) = elim (get id db.event_entity_refs) [
  | none ↦ db
  | some count ↦
      if count - 1 == 0
      then sweep_dead_entity (record db { event_entity_refs = remove id db.event_entity_refs }) id
      else record db { event_entity_refs = insert id (count - 1) db.event_entity_refs }
]

-- `while self.events.len() > self.max_events`, over the ring, oldest event first.
unfoldable pub evict : List Event → RuntimeDb → RuntimeDb
evict [] db = record db { events = [] }
evict (e ∷ es) db =
    let rest = evict es (release_reference (record db { events = es }) e.target) in
    if ltb db.max_events (length (e ∷ es)) then rest else record db { events = e ∷ es }

unfoldable pub record_event : Json → RuntimeDb → Event → RuntimeDb
record_event json db event =
    let counted = count_reference db event.target in
    let evicted = evict (db.events ++ event ∷ []) counted in
    push_if evicted (json.event.to_vec event) InternalChange.append_event
