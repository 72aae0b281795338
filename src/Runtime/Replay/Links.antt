-- ===== src/Runtime/Replay/Links.antt =====
-- crates/moire-runtime/src/db.rs: links and single edges, against the change stream.
use peeps.Prelude.{refl, inl, inr, string_ord, pair_ord, Bool-cases, Option-cases, ◌||◌}
use peeps.BTreeMap.{get, contains_key}
use peeps.Trace.{BacktraceId}
use peeps.Types.{EntityId, ScopeId, EdgeKind, new_edge}
use peeps.Runtime.Log.{InternalChange, edge_key, edge_key_ord}
use peeps.Runtime.Log.Decode.{Json, to_change}
use peeps.Runtime.Db.{
  RuntimeDb, Context, link_entity_to_scope, unlink_entity_from_scope, link_endpoints,
  link_if_present, insert_edge, upsert_edge, remove_edge, is_dead,
}
use peeps.Runtime.Replay.{Refines, Serializes, Refines-refl, Refines-trans, Refines-push}

module _ (json : Json) (db : RuntimeDb) where
  pub link_entity_to_scope-Refines :
      (e : EntityId) (s : ScopeId) → Refines json db (link_entity_to_scope db e s)
  unfolding link_entity_to_scope to_change
  link_entity_to_scope-Refines e s = elim (Bool-cases (contains_key (e, s) db.entity_scope_links)) [
    | inl old ↦ rw old (Refines-refl db)
    | inr new ↦ rw new (Refines-push db _ (InternalChange.upsert_entity_scope_link e s) refl refl)
  ]

  pub unlink_entity_from_scope-Refines :
      (e : EntityId) (s : ScopeId) → Refines json db (unlink_entity_from_scope db e s)
  unfolding unlink_entity_from_scope to_change
  unlink_entity_from_scope-Refines e s =
      elim (Bool-cases (contains_key (e, s) db.entity_scope_links)) [
        | inl old ↦
            rw old (Refines-push db _ (InternalChange.remove_entity_scope_link e s) refl refl)
        | inr new ↦ rw new (Refines-refl db)
      ]

  -- The replay of what `remove_edge` pushed gives the graph that it leaves.
  remove_edge-Refines :
      (src dst : EntityId) (kind : EdgeKind) → Refines json db (remove_edge db src dst kind)
  unfolding remove_edge to_change
  remove_edge-Refines src dst kind =
      elim (Bool-cases (contains_key (edge_key src dst kind) db.edges)) [
        | inl old ↦ rw old (Refines-push db _ (InternalChange.remove_edge src dst kind) refl refl)
        | inr new ↦ rw new (Refines-refl db)
      ]

link_if_present-Refines :
    (json : Json) (db : RuntimeDb) (e : EntityId) (s : ScopeId)
    → Refines json db (link_if_present db e s)
unfolding link_if_present
link_if_present-Refines json db e s = elim (Bool-cases (contains_key e db.entities)) [
  | inl here ↦ rw here (link_entity_to_scope-Refines json db e s)
  | inr gone ↦ rw gone (Refines-refl db)
]

link_endpoints-Refines :
    (ctx : Context) (json : Json) (db : RuntimeDb) (src dst : EntityId)
    → Refines json db (link_endpoints ctx db src dst)
unfolding link_endpoints
link_endpoints-Refines ctx json db src dst = elim (Option-cases ctx.process_scope_id) [
  | inl e ↦ rw e (Refines-refl db)
  | inr (s, e) ↦ rw e (
      Refines-trans db (link_if_present db src s) _ (link_if_present-Refines json db src s)
        (link_if_present-Refines json (link_if_present db src s) dst s))
]

insert_edge-Refines :
    (json : Json) (db : RuntimeDb) (src dst : EntityId) (kind : EdgeKind) (backtrace : BacktraceId)
    → Serializes json.edge (new_edge src dst kind backtrace)
    → Refines json db (insert_edge json db src dst kind backtrace)
unfolding insert_edge to_change
insert_edge-Refines json db src dst kind backtrace (text, written, read) =
    elim (Bool-cases (contains_key (edge_key src dst kind) db.edges)) [
      | inl old ↦ rw old (Refines-refl db)
      | inr new ↦
          rw (new, written)
            (Refines-push db _ (InternalChange.upsert_edge src dst kind text) refl (rw read refl))
    ]

-- The replay of what `upsert_edge` pushed gives the graph that it leaves, for dead, new and known
-- endpoints and for an edge that is there already, when the serializer writes the new edge and reads
-- it back.
pub upsert_edge-Refines :
    (ctx : Context) (json : Json) (db : RuntimeDb) (src dst : EntityId) (kind : EdgeKind)
    (backtrace : BacktraceId)
    → Serializes json.edge (new_edge src dst kind backtrace)
    → Refines json db (upsert_edge ctx json db src dst kind backtrace)
unfolding upsert_edge
upsert_edge-Refines ctx json db src dst kind backtrace ser =
    elim (Bool-cases (is_dead (get src db.entities) || is_dead (get dst db.entities))) [
      | inl dead ↦ rw dead (Refines-refl db)
      | inr alive ↦ rw alive (
          Refines-trans db (link_endpoints ctx db src dst) _
            (link_endpoints-Refines ctx json db src dst)
            (insert_edge-Refines json (link_endpoints ctx db src dst) src dst kind backtrace ser))
    ]
