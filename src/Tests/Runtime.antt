-- ===== src/Tests/Runtime.antt =====
-- The runtime's database at concrete inputs.
use mathlib.Core.Path.{subst}
use peeps.Prelude.{
  eqb_iff, ◌≡◌, refl, none, some, [], ◌∷◌, ◌++◌, string_ord, arith, Total, length, take, drop, ltb,
  ◌-◌,
}
use peeps.BTreeMap.{get}
use peeps.Types.{Entity, Scope, Edge, Event, waiting_on, entity, state_changed, new_edge}
use peeps.Types.Bodies.{future, notify, process}
use peeps.Runtime.Log.{InternalChange}
use peeps.Runtime.Log.Decode.{Json, Codec, pull_changes_since}
use peeps.Runtime.Log.Pull.{
  pending, decoded, cursor_after, pull_changes_since_lem, pull_changes_since_resumes,
}
use peeps.Runtime.Db.{RuntimeDb, Context, upsert_edge}
use peeps.Runtime.Db.Entities.{
  new_task_scope, upsert_entity, rename_entity_and_maybe_upsert,
  mutate_entity_body_and_maybe_upsert, Fingerprint,
}
use peeps.Runtime.Db.Removal.{remove_entity, remove_scope}
use peeps.Runtime.Db.Events.{record_event}
use peeps.Runtime.Db.Ring.{record_event-ring}
use peeps.Runtime.Db.References.{Counts, record_event-Counts}
use peeps.Runtime.Replay.{Refines, Serializes}
use peeps.Runtime.Replay.Links.{upsert_edge-Refines}
use peeps.Runtime.Replay.Creation.{upsert_entity-Refines}
use peeps.Runtime.Replay.Updates.{
  Changes, IsKeyed, rename_entity_and_maybe_upsert-Refines,
  mutate_entity_body_and_maybe_upsert-Refines,
}
use peeps.Runtime.Replay.Deaths.{remove_entity-Refines, remove_scope-Refines}

abbrev ctx : Context
ctx = record {
  process_scope_id = some "p";
  tokio_task_key = some "1";
  now = 5;
  fresh_scope_id = "t";
}

abbrev process_scope : Scope
process_scope = record { id = "p"; birth = 0; backtrace = 7; name = "app"; body = process 42 }

abbrev worker : Entity
worker = record {
  id = "w";
  birth = 1;
  removed_at = none;
  backtrace = 8;
  name = "worker";
  body = notify 0;
}

abbrev renamed : Entity
renamed = record worker { name = "runner" }

abbrev woken : Entity
woken = record worker { body = notify 3 }

abbrev dead : Entity
dead = record worker { removed_at = some 5 }

abbrev reader : Entity
reader = record {
  id = "r";
  birth = 5;
  removed_at = none;
  backtrace = 9;
  name = "reader";
  body = future none;
}

abbrev wait : Edge
wait = new_edge "r" "w" waiting_on 9

-- A codec that knows one value, and one that writes the backtrace of a task scope.
abbrev one_value : {A : Type 0} → A → Codec A
one_value a = record { to_vec = λ _. some []; from_slice = λ _. some a }

abbrev task_scopes : Codec Scope
task_scopes = record {
  to_vec = λ s. some (s.backtrace ∷ []);
  from_slice = λ text. elim text [ [] ↦ none | source ∷ _ ↦ some (new_task_scope ctx source) ];
}

abbrev woken_event : Event
woken_event = record { id = "e"; at = 6; backtrace = 9; target = entity "w"; kind = state_changed }

abbrev json_of : Entity → Json
json_of e = record {
  entity = one_value e;
  scope = task_scopes;
  edge = one_value wait;
  event = one_value woken_event;
}

-- One worker in the process scope, with two events about it in a full ring.
abbrev db : RuntimeDb
db = record {
  stream_id = "s";
  log = record {
    next_seq_no = 3;
    compacted_before_seq_no = some 1;
    changes =
        record { seq_no = 1; change = InternalChange.upsert_entity "w" [] }
        ∷ record { seq_no = 2; change = InternalChange.upsert_entity_scope_link "w" "p" }
        ∷ [];
  };
  entities = ("w", worker) ∷ [];
  scopes = ("p", process_scope) ∷ [];
  task_scope_ids = [];
  entity_scope_links = (("w", "p"), tt) ∷ [];
  edges = [];
  events = woken_event ∷ woken_event ∷ [];
  max_events = 2;
  event_entity_refs = ("w", 2) ∷ [];
}

-- The worker is the only entity.
only_worker : (P : Entity → Type 0) → P worker → (e : Entity) → get "w" db.entities ≡ some e → P e
unfolding get
only_worker P h e found = subst P (cc) h

db-IsKeyed : IsKeyed db.entities
unfolding IsKeyed get
db-IsKeyed id e found = ground (arith, eqb_iff id "w")

upsert_entity-Refines_example :
    Total (Refines (json_of reader) db) (upsert_entity ctx (json_of reader) db reader)
unfolding get
upsert_entity-Refines_example =
    upsert_entity-Refines ctx (json_of reader) db reader 7 refl
      (λ source. (source ∷ [], refl, refl)) ([], refl, refl)

upsert_edge-Refines_example :
    Refines (json_of reader) db (upsert_edge ctx (json_of reader) db "r" "w" waiting_on 9)
upsert_edge-Refines_example =
    upsert_edge-Refines ctx (json_of reader) db "r" "w" waiting_on 9 ([], refl, refl)

rename_entity_and_maybe_upsert-Refines_example :
    Refines
      (json_of renamed)
      db
      (rename_entity_and_maybe_upsert (json_of renamed) db "w" "runner").0
rename_entity_and_maybe_upsert-Refines_example =
    rename_entity_and_maybe_upsert-Refines (json_of renamed) db "w" db-IsKeyed "runner" (
      only_worker (λ e. Serializes (json_of renamed).entity (record e { name = "runner" }))
        ([], refl, refl))

-- The text of a body is the number of its waiters, which is its hash.
abbrev waiters : Fingerprint
waiters = record {
  to_vec = λ b. some (elim b [ notify n ↦ n ∷ [] | _ ↦ 0 ∷ [] ]);
  finish = λ bytes. elim bytes [ [] ↦ 0 | n ∷ _ ↦ n ];
}

mutate_entity_body_and_maybe_upsert-Refines_example :
    Total
      (λ r. Refines (json_of woken) db r.0)
      (mutate_entity_body_and_maybe_upsert waiters (json_of woken) db "w" (λ _. notify 3))
mutate_entity_body_and_maybe_upsert-Refines_example =
    mutate_entity_body_and_maybe_upsert-Refines (json_of woken) db "w" db-IsKeyed waiters
      (λ _. notify 3)
      (only_worker (λ e. Changes waiters e.body (notify 3)) (0 ∷ [], 3 ∷ [], refl, refl, refl))
      (only_worker (λ e. Serializes (json_of woken).entity (record e { body = notify 3 }))
        ([], refl, refl))

remove_entity-Refines_example : Refines (json_of dead) db (remove_entity ctx (json_of dead) db "w")
remove_entity-Refines_example = remove_entity-Refines ctx (json_of dead) db "w" db-IsKeyed (
    only_worker (λ e. Serializes (json_of dead).entity (record e { removed_at = some 5 }))
      ([], refl, refl))

remove_scope-Refines_example : Refines (json_of worker) db (remove_scope db "p")
remove_scope-Refines_example = remove_scope-Refines (json_of worker) db "p"

record_event-ring_example :
    (record_event (json_of worker) db woken_event).events
    ≡ drop (length (db.events ++ woken_event ∷ []) - 2) (db.events ++ woken_event ∷ [])
record_event-ring_example = record_event-ring (json_of worker) db woken_event

record_event-Counts_example :
    Counts
      (record_event (json_of worker) db woken_event).event_entity_refs
      (record_event (json_of worker) db woken_event).events
unfolding get
record_event-Counts_example =
    record_event-Counts (json_of worker) db woken_event (λ id. ground (arith, eqb_iff id "w"))

pull_changes_since_lem_example :
    let batch = take 1 (pending 1 db.log.changes) in
    pull_changes_since (json_of worker) "s" db.log 0 1 ≡ record {
      stream_id = "s";
      from_seq_no = 1;
      next_seq_no = cursor_after 1 batch;
      changes = decoded (json_of worker) batch;
      truncated = ltb 1 (length (pending 1 db.log.changes));
      compacted_before_seq_no = some 1;
    }
pull_changes_since_lem_example = pull_changes_since_lem (json_of worker) "s" db.log 0 1

pull_changes_since_resumes_example :
    let first = pull_changes_since (json_of worker) "s" db.log 0 1 in
    let second = pull_changes_since (json_of worker) "s" db.log first.next_seq_no 4 in
    let whole = pull_changes_since (json_of worker) "s" db.log 0 5 in
    (first.changes ++ second.changes ≡ whole.changes)
    × (second.next_seq_no ≡ whole.next_seq_no)
    × (second.truncated ≡ whole.truncated)
pull_changes_since_resumes_example =
    pull_changes_since_resumes (json_of worker) "s" db.log 0 1 4 (omega arith)
      (omega arith, (omega arith, omega arith))
