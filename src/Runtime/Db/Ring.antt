-- ===== src/Runtime/Db/Ring.antt =====
-- crates/moire-runtime/src/db.rs: the event ring of `record_event`.
use peeps.Prelude.{
  suc, true, false, ℕ, ◌≡◌, ◌-◌, refl, ap, ◌∙◌, inl, inr, List, [], ◌∷◌, ◌++◌, string_ord, length,
  drop, ltb, ◌==◌, Bool-cases, Option-cases, arith,
}
use peeps.BTreeMap.{get, remove}
use peeps.Types.{EntityId, Event, EventTarget, entity, scope}
use peeps.Runtime.Log.Decode.{Json}
use peeps.Runtime.Db.{RuntimeDb, push_change}
use peeps.Runtime.Db.Removal.{drop_entity}
use peeps.Runtime.Db.Events.{
  sweep_dead_entity, count_reference, release_reference, evict, record_event,
}

-- The capacity of the ring is not changed.
capacity-sweep :
    (db : RuntimeDb) (id : EntityId) → (sweep_dead_entity db id).max_events ≡ db.max_events
unfolding sweep_dead_entity drop_entity push_change
capacity-sweep db id = ground arith

capacity-release :
    (db : RuntimeDb) (t : EventTarget) → (release_reference db t).max_events ≡ db.max_events
unfolding release_reference
capacity-release db (scope id) = refl
capacity-release db (entity id) = elim (Option-cases (get id db.event_entity_refs)) [
  | inl e ↦ rw (e, release_reference) refl
  | inr (n, e) ↦ elim (Bool-cases (n - 1 == 0)) [
    | inl last ↦
        rw (e, last, release_reference)
          (capacity-sweep (record db { event_entity_refs = remove id db.event_entity_refs }) id)
    | inr more ↦ rw (e, more, release_reference) refl
  ]
]

capacity-count :
    (db : RuntimeDb) (t : EventTarget) → (count_reference db t).max_events ≡ db.max_events
unfolding count_reference
capacity-count db (scope id) = refl
capacity-count db (entity id) = refl

drop-longer :
    (room : ℕ) (e : Event) (es : List Event)
    → ltb room (length (e ∷ es)) ≡ true
    → drop (length es - room) es ≡ drop (length (e ∷ es) - room) (e ∷ es)
drop-longer room e es full =
    let p : suc (length es - room) ≡ length (e ∷ es) - room = ground arith in
    ap (λ n. drop n (e ∷ es)) p

drop-shorter :
    (room : ℕ) (e : Event) (es : List Event)
    → ltb room (length (e ∷ es)) ≡ false
    → e ∷ es ≡ drop (length (e ∷ es) - room) (e ∷ es)
drop-shorter room e es fits =
    let p : 0 ≡ length (e ∷ es) - room = ground arith in ap (λ n. drop n (e ∷ es)) p

evict_lem :
    (es : List Event) (db : RuntimeDb) → (evict es db).events ≡ drop (length es - db.max_events) es
unfolding evict
evict_lem [] db = ground arith
evict_lem (e ∷ es) db =
    let d = release_reference (record db { events = es }) e.target in
    elim (Bool-cases (ltb db.max_events (length (e ∷ es)))) [
      | inl full ↦
          rw (full, evict)
            (evict_lem es d
              ∙ ap (λ n. drop (length es - n) es)
                  (capacity-release (record db { events = es }) e.target)
              ∙ drop-longer db.max_events e es full)
      | inr fits ↦ rw (fits, evict) (drop-shorter db.max_events e es fits)
    ]

-- After `record_event` the ring holds the last `max_events` events of those that it held followed
-- by the new one, whatever entities the eviction swept and whether or not the event could be
-- serialized.
pub record_event-ring :
    (json : Json) (db : RuntimeDb) (event : Event)
    → (record_event json db event).events
      ≡ drop (length (db.events ++ event ∷ []) - db.max_events) (db.events ++ event ∷ [])
unfolding record_event push_change
record_event-ring json db event =
    let kept =
      evict_lem (db.events ++ event ∷ []) (count_reference db event.target)
      ∙ ap (λ n. drop (length (db.events ++ event ∷ []) - n) (db.events ++ event ∷ []))
          (capacity-count db event.target) in
    elim (Option-cases (json.event.to_vec event)) [
      | inl e ↦ rw (e, record_event) kept
      | inr (text, e) ↦ rw (e, record_event) kept
    ]
