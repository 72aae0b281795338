-- ===== src/Runtime/Log.antt =====
-- crates/moire-runtime/src/db.rs: the append-only change stream of `RuntimeDb`, its compaction and
-- its pull cursor. `ChangeLog` holds the fields of `RuntimeDb` that these operations touch.
pub mod Order
pub mod Decode
pub mod Pull
use Prim.Native.Nat.{Ordering}
use mathlib.Core.List.{reverse}
use mathlib.Core.Option
use peeps.Prelude.{
  ℕ, ◌+◌, ◌≡◌, ◌↔◌, Bool, true, false, Option, none, some, List, [], ◌∷◌, ◌++◌, arith, length,
  retain, Ord, String, string_ord, nat_ord, pair_ord, then_cmp, is_eq, ltb, leb, ◌==◌,
  if◌then◌else◌, is_some, max, ◌&&◌,
}
use peeps.BTreeMap.{BTreeMap, get, insert, contains_key}
use peeps.Wire.Frame.{Bytes}
use peeps.Types.{EntityId, ScopeId, Entity, Scope, Edge, EdgeKind, Event, edge_kind_ord}
use peeps.Types.Change.{SeqNo, next_seq, StreamId, Change, StampedChange, PullChangesResponse}
use peeps.Types.Change

pub record EdgeKey : Type 0 where
  pub src : EntityId
  pub dst : EntityId
  pub kind : EdgeKind

abbrev pub edge_key : EntityId → EntityId → EdgeKind → EdgeKey
edge_key src dst kind = record { src = src; dst = dst; kind = kind }

abbrev pub cmp_edge_key : EdgeKey → EdgeKey → Ordering
cmp_edge_key a b =
    then_cmp (string_ord.cmp a.src b.src)
      (then_cmp (string_ord.cmp a.dst b.dst) (edge_kind_ord.cmp a.kind b.kind))

pub cmp_edge_key_iff : (a b : EdgeKey) → (is_eq (cmp_edge_key a b) ≡ true) ↔ (a ≡ b)
cmp_edge_key_iff a b = ground (
  arith,
  string_ord.cmp_iff a.src b.src,
  string_ord.cmp_iff a.dst b.dst,
  edge_kind_ord.cmp_iff a.kind b.kind,
)

instance abbrev pub edge_key_ord : Ord EdgeKey
edge_key_ord = record { cmp = cmp_edge_key; cmp_iff = cmp_edge_key_iff }

-- A change as it is stored: upserts hold the JSON that was written at the time.
pub data InternalChange : Type 0 where
  upsert_entity : EntityId → Bytes → InternalChange
  upsert_scope : ScopeId → Bytes → InternalChange
  remove_entity : EntityId → InternalChange
  remove_scope : ScopeId → InternalChange
  upsert_entity_scope_link : EntityId → ScopeId → InternalChange
  remove_entity_scope_link : EntityId → ScopeId → InternalChange
  upsert_edge : EntityId → EntityId → EdgeKind → Bytes → InternalChange
  remove_edge : EntityId → EntityId → EdgeKind → InternalChange
  append_event : Bytes → InternalChange

pub record InternalStampedChange : Type 0 where
  pub seq_no : SeqNo
  pub change : InternalChange

pub record ChangeLog : Type 0 where
  pub next_seq_no : SeqNo
  pub compacted_before_seq_no : Option SeqNo
  pub changes : List InternalStampedChange

abbrev pub max_changes_before_compact : ℕ
max_changes_before_compact = 65536

abbrev pub compact_target_changes : ℕ
compact_target_changes = 8192

-- The local maps of `compact_changes`.
pub record Seen : Type 0 where
  pub keep_seq : BTreeMap SeqNo (Unit {0})
  pub seen_entities : BTreeMap EntityId (Unit {0})
  pub seen_scopes : BTreeMap ScopeId (Unit {0})
  pub seen_entity_scope_links : BTreeMap (EntityId × ScopeId) (Unit {0})
  pub seen_edges : BTreeMap EdgeKey (Unit {0})

abbrev pub nothing_seen : Seen
nothing_seen = record {
  keep_seq = [];
  seen_entities = [];
  seen_scopes = [];
  seen_entity_scope_links = [];
  seen_edges = [];
}

keep : SeqNo → Seen → Seen
keep seq s = record s { keep_seq = insert seq tt s.keep_seq }

visit_entity : SeqNo → EntityId → Seen → Seen
unfolding keep
visit_entity seq id s =
    if contains_key id s.seen_entities
    then s
    else keep seq (record s { seen_entities = insert id tt s.seen_entities })

visit_scope : SeqNo → ScopeId → Seen → Seen
unfolding keep
visit_scope seq id s =
    if contains_key id s.seen_scopes
    then s
    else keep seq (record s { seen_scopes = insert id tt s.seen_scopes })

visit_link : SeqNo → EntityId × ScopeId → Seen → Seen
unfolding keep
visit_link seq key s =
    if contains_key key s.seen_entity_scope_links
    then s
    else keep seq (record s { seen_entity_scope_links = insert key tt s.seen_entity_scope_links })

visit_edge : SeqNo → EdgeKey → Seen → Seen
unfolding keep
visit_edge seq key s =
    if contains_key key s.seen_edges
    then s
    else keep seq (record s { seen_edges = insert key tt s.seen_edges })

-- The `match` in the loop of `compact_changes`.
visit : SeqNo → InternalChange → Seen → Seen
unfolding keep visit_entity visit_scope visit_link visit_edge
visit seq (append_event json) s = keep seq s
visit seq (upsert_entity id json) s = visit_entity seq id s
visit seq (remove_entity id) s = visit_entity seq id s
visit seq (upsert_scope id json) s = visit_scope seq id s
visit seq (remove_scope id) s = visit_scope seq id s
visit seq (upsert_entity_scope_link e c) s = visit_link seq (e, c) s
visit seq (remove_entity_scope_link e c) s = visit_link seq (e, c) s
visit seq (upsert_edge src dst kind json) s = visit_edge seq (edge_key src dst kind) s
visit seq (remove_edge src dst kind) s = visit_edge seq (edge_key src dst kind) s

-- The loop, newest change first, with its `break` at the target.
mark : List InternalStampedChange → Seen → Seen
unfolding visit
mark [] s = s
mark (c ∷ older) s =
    let s' = visit c.seq_no c.change s in
    let rest = mark older s' in if leb compact_target_changes (length s'.keep_seq) then s' else rest

-- `changes.front().map(|c| c.seq_no)`.
abbrev pub front_seq : List InternalStampedChange → Option SeqNo
front_seq [] = none
front_seq (c ∷ cs) = some c.seq_no

-- `compacted_before_seq_no` after a compaction that moved the front.
abbrev pub advance_compacted : Option SeqNo → Option SeqNo → Option SeqNo → Option SeqNo
advance_compacted (some old_front) (some new_front) existing =
    if ltb old_front new_front
    then (elim existing [ none ↦ some new_front | some e ↦ some (max e new_front) ])
    else existing
advance_compacted _ _ existing = existing

unfoldable pub compact_changes : ChangeLog → ChangeLog
unfolding mark
compact_changes log =
    if leb (length log.changes) compact_target_changes
    then log
    else (let seen = mark (reverse log.changes) nothing_seen in
        if length seen.keep_seq == length log.changes
        then log
        else (let kept = retain (λ c. contains_key c.seq_no seen.keep_seq) log.changes in
            record log {
              changes = kept;
              compacted_before_seq_no =
                  advance_compacted (front_seq log.changes) (front_seq kept)
                    log.compacted_before_seq_no;
            }))

-- `push_back` and the new counter, without the compaction.
abbrev pub append_change : ChangeLog → InternalChange → ChangeLog
append_change log change = record log {
  next_seq_no = next_seq log.next_seq_no;
  changes = log.changes ++ record { seq_no = log.next_seq_no; change = change } ∷ [];
}

unfoldable pub push : ChangeLog → InternalChange → ChangeLog
push log change =
    let log' = append_change log change in
    if ltb max_changes_before_compact (length log'.changes) then compact_changes log' else log'
