-- ===== src/Runtime/Db/References.antt =====
-- crates/moire-runtime/src/db.rs: `event_entity_refs`, the reference counts of `record_event`.
use peeps.Prelude.{
  ℕ, ◌≡◌, ◌+◌, ◌-◌, ap, ◌∙◌, inl, inr, Option, none, some, List, [], ◌∷◌, ◌++◌, string_ord, eqb,
  eqb_iff, length, ltb, ◌==◌, if◌then◌else◌, Bool-cases, Option-cases, arith,
}
use peeps.BTreeMap.{BTreeMap, get, remove}
use peeps.BTreeMap.Laws.{get-insert, get-remove}
use peeps.Types.{EntityId, Event, EventTarget, entity, scope}
use peeps.Runtime.Log.Decode.{Json}
use peeps.Runtime.Db.{RuntimeDb, push_change}
use peeps.Runtime.Db.Removal.{drop_entity}
use peeps.Runtime.Db.Events.{
  sweep_dead_entity, count_reference, release_reference, evict, record_event,
}

-- Whether an event with this target is about the entity.
abbrev pub hits : EntityId → EventTarget → ℕ
hits id (scope s) = 0
hits id (entity i) = if eqb id i then 1 else 0

-- How many of the events are about the entity.
abbrev pub references : EntityId → List Event → ℕ
references id [] = 0
references id (e ∷ es) = hits id e.target + references id es

-- An entry for a positive count, none for zero.
abbrev pub entry : ℕ → Option ℕ
entry n = if n == 0 then none else some n

-- The map counts the events of a list.
abbrev pub Counts : BTreeMap EntityId ℕ → List Event → Type 0
Counts refs es = (id : EntityId) → get id refs ≡ entry (references id es)

references-snoc :
    (id : EntityId) (e : Event) (xs : List Event)
    → references id xs + hits id e.target ≡ references id (xs ++ e ∷ [])
references-snoc id e [] = omega arith
references-snoc id e (x ∷ xs) = ground (arith, references-snoc id e xs)

refs-sweep :
    (db : RuntimeDb) (id : EntityId)
    → (sweep_dead_entity db id).event_entity_refs ≡ db.event_entity_refs
unfolding sweep_dead_entity drop_entity push_change
refs-sweep db id = ground arith

module _ (db : RuntimeDb) (c : EntityId → ℕ) where
  counted :
      ((id : EntityId) → get id db.event_entity_refs ≡ entry (c id))
      → (t : EventTarget) → (id : EntityId)
      → get id (count_reference db t).event_entity_refs ≡ entry (c id + hits id t)
  unfolding count_reference
  counted counts (scope s) id = ground (arith, counts id)
  counted counts (entity j) id = elim (Option-cases (get j db.event_entity_refs)) [
    | inl e ↦
        rw (e, count_reference)
          (ground
            (arith, get-insert id j 1 db.event_entity_refs, counts id, counts j, eqb_iff id j))
    | inr (n, e) ↦
        rw (e, count_reference)
          (ground (
            arith,
            get-insert id j (n + 1) db.event_entity_refs,
            counts id,
            counts j,
            eqb_iff id j,
          ))
  ]

  released :
      (t : EventTarget)
      → ((id : EntityId) → get id db.event_entity_refs ≡ entry (hits id t + c id))
      → (id : EntityId) → get id (release_reference db t).event_entity_refs ≡ entry (c id)
  unfolding release_reference
  released (scope s) counts id = ground (arith, counts id)
  released (entity j) counts id = elim (Option-cases (get j db.event_entity_refs)) [
    | inl e ↦
        rw (e, release_reference) (ground (arith, counts id, counts j, eqb_iff id j, eqb_iff j j))
    | inr (n, e) ↦ elim (Bool-cases (n - 1 == 0)) [
      | inl last ↦
          rw
            (
              e,
              last,
              release_reference,
              refs-sweep (record db { event_entity_refs = remove j db.event_entity_refs }) j,
            )
            (ground (
              arith,
              get-remove id j db.event_entity_refs,
              counts id,
              counts j,
              eqb_iff id j,
              eqb_iff j j,
            ))
      | inr more ↦
          rw (e, more, release_reference)
            (ground (
              arith,
              get-insert id j (n - 1) db.event_entity_refs,
              counts id,
              counts j,
              eqb_iff id j,
              eqb_iff j j,
            ))
    ]
  ]

evict-Counts :
    (es : List Event) (db : RuntimeDb)
    → Counts db.event_entity_refs es
    → Counts (evict es db).event_entity_refs (evict es db).events
unfolding evict
evict-Counts [] db counts = counts
evict-Counts (e ∷ es) db counts = elim (Bool-cases (ltb db.max_events (length (e ∷ es)))) [
  | inl full ↦
      rw (full, evict)
        (evict-Counts es (release_reference (record db { events = es }) e.target)
          (released (record db { events = es }) (λ id. references id es) e.target counts))
  | inr fits ↦ rw (fits, evict) counts
]

-- `record_event` keeps the counts exact: if the map holds, for each entity, the number of events in
-- the ring about it, and nothing for none, then it does so afterwards.
pub record_event-Counts :
    (json : Json) (db : RuntimeDb) (event : Event)
    → Counts db.event_entity_refs db.events
    → Counts (record_event json db event).event_entity_refs (record_event json db event).events
unfolding record_event push_change
record_event-Counts json db event counts =
    let kept = evict-Counts (db.events ++ event ∷ []) (count_reference db event.target) (λ id.
      counted db (λ i. references i db.events) counts event.target id
      ∙ ap entry (references-snoc id event db.events)) in
    elim (Option-cases (json.event.to_vec event)) [
      | inl e ↦ rw (e, record_event) kept
      | inr (text, e) ↦ rw (e, record_event) kept
    ]
