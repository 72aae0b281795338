-- ===== src/Runtime/Replay.antt =====
-- The materialized graph of a change stream, as the comments of crates/moire-types/src/diff.rs
-- define it, and what it means that a step of the database emits changes: the specification of the
-- methods of `RuntimeDb`. A client holds such a graph.
pub mod Links
pub mod Apart
pub mod Creation
pub mod Updates
pub mod Removal
pub mod Deaths
pub mod Keyed
use peeps.Prelude.{
  ℕ, ◌≡◌, refl, ap, sym, ◌∙◌, Bool, true, false, Option, none, some, List, [], ◌∷◌, ◌++◌, String,
  string_ord, pair_ord, not,
}
use peeps.BTreeMap.{BTreeMap, insert, remove}
use peeps.BTreeMap
use peeps.Types.{EntityId, ScopeId, Entity, Scope, Edge}
use peeps.Types.Change.{Change}
use peeps.Runtime.Log.{ChangeLog, InternalChange, EdgeKey, edge_key, edge_key_ord, push}
use peeps.Runtime.Log.Decode.{Json, Codec, to_change}
use peeps.Runtime.Db.{RuntimeDb, push_change}
use peeps.Runtime.Db.Removal.{is_incident}

pub record Graph : Type 0 where
  pub entities : BTreeMap EntityId Entity
  pub scopes : BTreeMap ScopeId Scope
  pub entity_scope_links : BTreeMap (EntityId × ScopeId) (Unit {0})
  pub edges : BTreeMap EdgeKey Edge

abbrev pub graph : RuntimeDb → Graph
graph db = record {
  entities = db.entities;
  scopes = db.scopes;
  entity_scope_links = db.entity_scope_links;
  edges = db.edges;
}

-- One change. Removing an entity removes its incident edges too; an event changes no graph.
abbrev pub apply : Graph → Change → Graph
apply g (Change.upsert_entity e) = record g { entities = insert e.id e g.entities }
apply g (Change.upsert_scope s) = record g { scopes = insert s.id s g.scopes }
apply g (Change.remove_entity id) = record g {
  entities = remove id g.entities;
  edges = BTreeMap.retain (λ key _. not (is_incident id key)) g.edges;
}
apply g (Change.remove_scope id) = record g { scopes = remove id g.scopes }
apply g (Change.upsert_entity_scope_link e s) = record g {
  entity_scope_links = insert (e, s) tt g.entity_scope_links;
}
apply g (Change.remove_entity_scope_link e s) = record g {
  entity_scope_links = remove (e, s) g.entity_scope_links;
}
apply g (Change.upsert_edge e) = record g { edges = insert (edge_key e.src e.dst e.kind) e g.edges }
apply g (Change.remove_edge src dst kind) = record g {
  edges = remove (edge_key src dst kind) g.edges;
}
apply g (Change.append_event e) = g

-- A stored change that does not decode is not sent.
abbrev pub apply_decoded : Graph → Option Change → Graph
apply_decoded g none = g
apply_decoded g (some change) = apply g change

abbrev pub replay : Json → Graph → List InternalChange → Graph
replay json g [] = g
replay json g (c ∷ cs) = replay json (apply_decoded g (to_change json c)) cs

abbrev pub push_all : ChangeLog → List InternalChange → ChangeLog
push_all log [] = log
push_all log (c ∷ cs) = push_all (push log c) cs

-- A step from `before` to `after` pushes exactly `cs`, and their replay on the graph before gives
-- the graph after.
pub record Emits (json : Json) (cs : List InternalChange) (before after : RuntimeDb) : Type 0 where
  pub logged : after.log ≡ push_all before.log cs
  pub shown : graph after ≡ replay json (graph before) cs

-- The step emits some changes.
abbrev pub Refines : Json → RuntimeDb → RuntimeDb → Type 0
Refines json before after = (cs : List InternalChange) × Emits json cs before after

-- The serializer writes the value, and reads it back.
abbrev pub Serializes : {A : Type 0} → Codec A → A → Type 0
Serializes codec a =
    (text : List ℕ) × (codec.to_vec a ≡ some text) × (codec.from_slice text ≡ some a)

pub push_all-append :
    (log : ChangeLog) (xs ys : List InternalChange)
    → push_all log (xs ++ ys) ≡ push_all (push_all log xs) ys
push_all-append log [] ys = refl
push_all-append log (c ∷ xs) ys = push_all-append (push log c) xs ys

pub replay-append :
    (json : Json) (g : Graph) (xs ys : List InternalChange)
    → replay json g (xs ++ ys) ≡ replay json (replay json g xs) ys
replay-append json g [] ys = refl
replay-append json g (c ∷ xs) ys = replay-append json (apply_decoded g (to_change json c)) xs ys

module _ {json : Json} where
  pub Refines-refl : (db : RuntimeDb) → Refines json db db
  Refines-refl db = ([], record { logged = refl; shown = refl })

  pub Refines-trans : (a b c : RuntimeDb) → Refines json a b → Refines json b c → Refines json a c
  Refines-trans a b c (xs, ab) (ys, bc) = (
    xs ++ ys,
    record {
      logged = bc.logged ∙ ap (λ l. push_all l ys) ab.logged ∙ sym (push_all-append a.log xs ys);
      shown =
          bc.shown ∙ ap (λ g. replay json g ys) ab.shown ∙ sym (replay-append json (graph a) xs ys);
    },
  )

  -- An edit of the graph followed by the change that describes it.
  pub Refines-push :
      (before edited : RuntimeDb) (c : InternalChange)
      → edited.log ≡ before.log
      → graph edited ≡ apply_decoded (graph before) (to_change json c)
      → Refines json before (push_change edited c)
  unfolding push_change
  Refines-push before edited c l g =
      (c ∷ [], record { logged = ap (λ (t : ChangeLog). push t c) l; shown = g })

  -- A step that changes neither the graph nor the log.
  pub Refines-silent :
      (before after : RuntimeDb)
      → after.log ≡ before.log
      → graph after ≡ graph before
      → Refines json before after
  Refines-silent before after l g = ([], record { logged = l; shown = g })
