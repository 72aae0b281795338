-- ===== src/Runtime/Replay/Removal.antt =====
-- crates/moire-runtime/src/db.rs: the steps that `remove_entity` and `remove_scope` share, against
-- the change stream.
use peeps.Prelude.{
  ℕ, ◌≡◌, refl, ap, sym, ◌∙◌, ◌⊎◌, inl, inr, Bool, true, false, Option, none, some, List, [], ◌∷◌,
  ◌++◌, String, string_ord, pair_ord, not, arith, Bool-cases, Option-cases, is_some, eqb, map,
}
use peeps.Prelude
use peeps.BTreeMap.{BTreeMap, get, insert, remove, contains_key, keys}
use peeps.BTreeMap
use peeps.BTreeMap.Bulk.{remove_keys, remove_keys_lem, retain_twice}
use peeps.Types.{EntityId, ScopeId, Entity, Scope}
use peeps.Runtime.Log.{InternalChange, EdgeKey, edge_key_ord}
use peeps.Runtime.Log.Decode.{Json, to_change}
use peeps.Runtime.Db.{RuntimeDb, push_change, unlink_entity_from_scope}
use peeps.Runtime.Db.Removal.{
  unlink_all, is_incident, push_removed_edges, drop_incident_edges, unlink_entity,
}
use peeps.Runtime.Replay.{Graph, graph, replay, push_all, Refines, Refines-refl, Refines-trans}
use peeps.Runtime.Replay.Links.{unlink_entity_from_scope-Refines}

pub unlink_all-Refines :
    (json : Json) (db : RuntimeDb) (links : List (EntityId × ScopeId))
    → Refines json db (unlink_all db links)
unfolding unlink_all
unlink_all-Refines json db [] = Refines-refl db
unlink_all-Refines json db ((e, s) ∷ rest) =
    Refines-trans db (unlink_entity_from_scope db e s)
      (unlink_all (unlink_entity_from_scope db e s) rest)
      (unlink_entity_from_scope-Refines json db e s)
      (unlink_all-Refines json (unlink_entity_from_scope db e s) rest)

-- The changes that announce removed edges.
abbrev removals : List EdgeKey → List InternalChange
removals = map (λ k. InternalChange.remove_edge k.src k.dst k.kind)

log-push_removed_edges :
    (db : RuntimeDb) (ks : List EdgeKey)
    → (push_removed_edges db ks).log ≡ push_all db.log (removals ks)
unfolding push_removed_edges push_change
log-push_removed_edges db [] = refl
log-push_removed_edges db (k ∷ ks) =
    log-push_removed_edges (push_change db (InternalChange.remove_edge k.src k.dst k.kind)) ks

graph-push_removed_edges :
    (db : RuntimeDb) (ks : List EdgeKey) → graph (push_removed_edges db ks) ≡ graph db
unfolding push_removed_edges push_change
graph-push_removed_edges db [] = refl
graph-push_removed_edges db (k ∷ ks) =
    graph-push_removed_edges (push_change db (InternalChange.remove_edge k.src k.dst k.kind)) ks

replay-removals :
    (json : Json) (g : Graph) (ks : List EdgeKey)
    → replay json g (removals ks) ≡ record g { edges = remove_keys ks g.edges }
unfolding to_change
replay-removals json g [] = refl
replay-removals json g (k ∷ ks) = replay-removals json (record g { edges = remove k g.edges }) ks

drop_incident_edges-Refines :
    (json : Json) (db : RuntimeDb) (id : EntityId) → Refines json db (drop_incident_edges db id)
unfolding drop_incident_edges
drop_incident_edges-Refines json db id =
    let ks = Prelude.retain (is_incident id) (keys db.edges) in
    let kept = record db { edges = BTreeMap.retain (λ key _. not (is_incident id key)) db.edges } in
    (
      removals ks,
      record {
        logged = log-push_removed_edges kept ks;
        shown =
            graph-push_removed_edges kept ks
            ∙ ap (λ m. record (graph db) { edges = m })
                (sym (remove_keys_lem (is_incident id) db.edges))
            ∙ sym (replay-removals json (graph db) ks);
      },
    )

-- A database with other entities, scopes and task scopes.
abbrev pub wearing :
    BTreeMap EntityId Entity
    → BTreeMap ScopeId Scope
    → BTreeMap String ScopeId
    → RuntimeDb
    → RuntimeDb
wearing es ss ts db = record db { entities = es; scopes = ss; task_scope_ids = ts }

-- Links and edges do not look at entities and scopes.
module _ (es : BTreeMap EntityId Entity) (ss : BTreeMap ScopeId Scope)
    (ts : BTreeMap String ScopeId) where
  unlink-wearing :
      (db : RuntimeDb) (e : EntityId) (s : ScopeId)
      → unlink_entity_from_scope (wearing es ss ts db) e s
        ≡ wearing es ss ts (unlink_entity_from_scope db e s)
  unfolding unlink_entity_from_scope push_change
  unlink-wearing db e s = elim (Bool-cases (contains_key (e, s) db.entity_scope_links)) [
    | inl old ↦ rw old refl
    | inr new ↦ rw new refl
  ]

  pub unlink_all-wearing :
      (db : RuntimeDb) (links : List (EntityId × ScopeId))
      → unlink_all (wearing es ss ts db) links ≡ wearing es ss ts (unlink_all db links)
  unfolding unlink_all
  unlink_all-wearing db [] = refl
  unlink_all-wearing db ((e, s) ∷ links) =
      ap (λ d. unlink_all d links) (unlink-wearing db e s)
      ∙ unlink_all-wearing (unlink_entity_from_scope db e s) links

  removed_edges-wearing :
      (db : RuntimeDb) (ks : List EdgeKey)
      → push_removed_edges (wearing es ss ts db) ks ≡ wearing es ss ts (push_removed_edges db ks)
  unfolding push_removed_edges push_change
  removed_edges-wearing db [] = refl
  removed_edges-wearing db (k ∷ ks) =
      removed_edges-wearing (push_change db (InternalChange.remove_edge k.src k.dst k.kind)) ks

  incident-wearing :
      (db : RuntimeDb) (id : EntityId)
      → drop_incident_edges (wearing es ss ts db) id ≡ wearing es ss ts (drop_incident_edges db id)
  unfolding drop_incident_edges
  incident-wearing db id =
      removed_edges-wearing
        (record db { edges = BTreeMap.retain (λ key _. not (is_incident id key)) db.edges })
        (Prelude.retain (is_incident id) (keys db.edges))

  pub detach-wearing :
      (db : RuntimeDb) (id : EntityId)
      → drop_incident_edges (unlink_entity (wearing es ss ts db) id) id
        ≡ wearing es ss ts (drop_incident_edges (unlink_entity db id) id)
  unfolding unlink_entity
  detach-wearing db id =
      ap (λ d. drop_incident_edges d id)
        (unlink_all-wearing db
          (Prelude.retain (λ link. eqb link.0 id) (keys db.entity_scope_links)))
      ∙ incident-wearing (unlink_entity db id) id

pub unlink_all-wears :
    (db : RuntimeDb) (links : List (EntityId × ScopeId))
    → unlink_all db links ≡ wearing db.entities db.scopes db.task_scope_ids (unlink_all db links)
unlink_all-wears db links = unlink_all-wearing db.entities db.scopes db.task_scope_ids db links

-- The database without the links and the edges of an entity.
abbrev pub detached : RuntimeDb → EntityId → RuntimeDb
detached db id = drop_incident_edges (unlink_entity db id) id

pub detached-wears :
    (db : RuntimeDb) (id : EntityId)
    → detached db id ≡ wearing db.entities db.scopes db.task_scope_ids (detached db id)
detached-wears db id = detach-wearing db.entities db.scopes db.task_scope_ids db id

pub detached-Refines :
    (json : Json) (db : RuntimeDb) (id : EntityId) → Refines json db (detached db id)
unfolding unlink_entity
detached-Refines json db id =
    Refines-trans db (unlink_entity db id) (detached db id)
      (unlink_all-Refines json db
        (Prelude.retain (λ link. eqb link.0 id) (keys db.entity_scope_links)))
      (drop_incident_edges-Refines json (unlink_entity db id) id)

-- No edge of the entity is left, so that the filter of `Change.remove_entity` has no effect.
pub detached-edges :
    (db : RuntimeDb) (id : EntityId)
    → BTreeMap.retain (λ key _. not (is_incident id key)) (detached db id).edges
      ≡ (detached db id).edges
unfolding drop_incident_edges
detached-edges db id =
    let d = unlink_entity db id in
    let kept = record d { edges = BTreeMap.retain (λ key _. not (is_incident id key)) d.edges } in
    let same =
      ap (λ (g : Graph). g.edges)
        (graph-push_removed_edges kept (Prelude.retain (is_incident id) (keys d.edges))) in
    ap (BTreeMap.retain (λ key _. not (is_incident id key))) same
    ∙ retain_twice (λ key _. not (is_incident id key)) d.edges
    ∙ sym same
