-- ===== src/Mcp/Graph/Waits.antt =====
-- The graph of a snapshot against the list of its waits.
use Prim.Native.String.{compare}
use mathlib.Core.Option
use mathlib.Core.Path.{subst}
use peeps.Prelude.{
  ◌≡◌, refl, ap, ◌∙◌, Bool, true, false, Option, none, some, List, [], ◌∷◌, ◌++◌, map, String,
  nat_ord, string_ord, pair_ord, eqb, eqb_iff, if◌then◌else◌, arith, All, contains, ◌||◌, ◌&&◌,
  Bool-cases, Option-cases, inl, inr, ◌⊎◌, Result, ok, err, ◌>>=◌, is_ok, is_ok-bind, dedup,
  sort_by, Ensures-ok, contains-dedup, contains-sort_by,
}
use peeps.BTreeMap.{BTreeMap, get, insert, contains_key}
use peeps.BTreeMap.Laws.{get-insert}
use peeps.BTreeMap.Each.{get-All, insert-All}
use peeps.BTreeMap.Values.{get-map_values}
use peeps.Types.{EntityId, ProcessId, Entity, Edge, waiting_on, edge_kind_ord}
use peeps.Types.Snapshot.{ProcessSnapshotView, SnapshotCutResponse}
use peeps.Mcp.Frames.{BacktraceIndex, FrameCatalog, backtrace_index, frame_catalog}
use peeps.Mcp.Graph.{
  WaitGraph, GraphError, no_graph, or_nil, compose_node_key, add_wait, wait_node, wait_edge,
  add_waiting_edge, add_edges, add_processes, collect_entities, sort_outs, build_wait_graph,
}
use peeps.Mcp.Graph.Nodes.{Labels, Describes, build_wait_graph-Labels}
use peeps.Mcp.Graph.Building.{Pair, IsWaitGraph, no_graph-IsWaitGraph, add_wait-IsWaitGraph}

abbrev pub is_waiting : Edge → Bool
is_waiting edge = eqb edge.kind waiting_on

-- The waits of a process, after those of others.
abbrev pub process_waits : ProcessId → List Pair → List Edge → List Pair
process_waits id waits [] = waits
process_waits id waits (edge ∷ edges) =
    process_waits id
      (if is_waiting edge
        then waits ++ (compose_node_key id edge.src, compose_node_key id edge.dst) ∷ []
        else waits)
      edges

abbrev pub all_waits : List Pair → List ProcessSnapshotView → List Pair
all_waits waits [] = waits
all_waits waits (process ∷ processes) =
    all_waits (process_waits process.process_id waits process.snapshot.edges) processes

abbrev pub has_entity : EntityId → List Entity → Bool
has_entity id entities = contains id (map (λ (e : Entity). e.id) entities)

-- Both ends of each wait are entities of its process.
abbrev pub ends_listed : List Entity → List Edge → Bool
ends_listed entities [] = true
ends_listed entities (edge ∷ edges) =
    (if is_waiting edge then has_entity edge.src entities && has_entity edge.dst entities else true)
    && ends_listed entities edges

abbrev pub all_listed : List ProcessSnapshotView → Bool
all_listed [] = true
all_listed (process ∷ processes) =
    ends_listed process.snapshot.entities process.snapshot.edges && all_listed processes

abbrev Keyed : BTreeMap EntityId Entity → Type 0
Keyed = All (λ (e : EntityId × Entity). e.1.id ≡ e.0)

collect_entities-Keyed :
    (local : BTreeMap EntityId Entity) (entities : List Entity)
    → Keyed local
    → Keyed (collect_entities local entities)
unfolding collect_entities
collect_entities-Keyed local [] h = h
collect_entities-Keyed local (e ∷ es) h =
    collect_entities-Keyed (insert e.id e local) es
      (insert-All (λ (e : EntityId × Entity). e.1.id ≡ e.0) e.id e local refl h)

contains_key-collect_entities :
    (id : EntityId) (local : BTreeMap EntityId Entity) (entities : List Entity)
    → contains_key id (collect_entities local entities)
      ≡ (contains_key id local || has_entity id entities)
unfolding collect_entities
contains_key-collect_entities id local [] = ground arith
contains_key-collect_entities id local (e ∷ es) = ground (
  arith,
  contains_key-collect_entities id (insert e.id e local) es,
  get-insert id e.id e local,
  eqb_iff id e.id,
  eqb_iff e.id id,
)

-- A graph of the waits, or an error.
abbrev Builds : Bool → List Pair → Result GraphError WaitGraph → Type 0
Builds listed waits r =
    ((listed ≡ true) × (g : WaitGraph) × (r ≡ ok g) × IsWaitGraph waits g)
    ⊎ ((listed ≡ false) × (is_ok r ≡ false))

module _ (backtraces : BacktraceIndex) (catalog : FrameCatalog) where
  module _ (process : ProcessSnapshotView) (entities : List Entity) where
    abbrev local_entities : BTreeMap EntityId Entity
    local_entities = collect_entities [] entities

    found : (id : EntityId) → contains_key id local_entities ≡ has_entity id entities
    unfolding get
    found id = contains_key-collect_entities id [] entities

    named : (id : EntityId) (e : Entity) → get id local_entities ≡ some e → e.id ≡ id
    named id e h =
        get-All (λ (e : EntityId × Entity). e.1.id ≡ e.0) id e local_entities
          (collect_entities-Keyed [] entities tt) h

    add_waiting_edge-Builds :
        (edge : Edge) (waits : List Pair) (g : WaitGraph)
        → IsWaitGraph waits g
        → Builds
            (has_entity edge.src entities && has_entity edge.dst entities)
            (waits
              ++ (
                compose_node_key process.process_id edge.src,
                compose_node_key process.process_id edge.dst,
              )
                ∷ [])
            (add_waiting_edge backtraces catalog process local_entities edge g)
    unfolding add_waiting_edge wait_edge
    add_waiting_edge-Builds edge waits g inv = elim (Option-cases (get edge.src local_entities)) [
      | inl e ↦ inr (ground (arith, found edge.src), rw (e, add_waiting_edge) refl)
      | inr (src, e) ↦ elim (Option-cases (get edge.dst local_entities)) [
        | inl d ↦ inr (ground (arith, found edge.dst), rw (e, add_waiting_edge, d) refl)
        | inr (dst, d) ↦
            let s = named edge.src src e in
            let t = named edge.dst dst d in
            inl (
              ground (arith, found edge.src, found edge.dst),
              add_wait (wait_node backtraces catalog process src)
                  (wait_node backtraces catalog process dst)
                  (wait_edge backtraces catalog process edge src dst) g,
              rw (e, add_waiting_edge, d) refl,
              subst
                  (λ (p : Pair). IsWaitGraph (waits ++ p ∷ []) (
                    add_wait (wait_node backtraces catalog process src)
                      (wait_node backtraces catalog process dst)
                      (wait_edge backtraces catalog process edge src dst) g))
                  (λ i. (
                    compose_node_key process.process_id (s i),
                    compose_node_key process.process_id (t i),
                  ))
                  (add_wait-IsWaitGraph (wait_node backtraces catalog process src)
                    (wait_node backtraces catalog process dst)
                    (wait_edge backtraces catalog process edge src dst) waits g inv),
            )
      ]
    ]

    -- The rest of a loop, after a part of it.
    then-Builds :
        (listed rest : Bool) (waits more : List Pair) (r : Result GraphError WaitGraph)
        (next : WaitGraph → Result GraphError WaitGraph)
        → Builds listed waits r
        → ((g : WaitGraph) → IsWaitGraph waits g → Builds rest more (next g))
        → Builds (listed && rest) more (r >>= next)
    then-Builds listed rest waits more r next (inr (no_end, failed)) k =
        inr (ground arith, failing r failed)
      where
        failing : (r : Result GraphError WaitGraph) → is_ok r ≡ false → is_ok (r >>= next) ≡ false
        failing (ok g) h = absurd (cc)
        failing (err e) h = refl
    then-Builds listed rest waits more r next (inl (ends, g, made, inv)) k =
        rw (made, ends) (k g inv)

    add_edges-Builds :
        (edges : List Edge) (waits : List Pair) (g : WaitGraph)
        → IsWaitGraph waits g
        → Builds
            (ends_listed entities edges)
            (process_waits process.process_id waits edges)
            (add_edges backtraces catalog process local_entities edges g)
    unfolding add_edges
    add_edges-Builds [] waits g inv = inl (refl, g, refl, inv)
    add_edges-Builds (edge ∷ edges) waits g inv = elim (Bool-cases (is_waiting edge)) [
      | inl waits_on ↦
          rw (waits_on, add_edges)
            (then-Builds _ (ends_listed entities edges) _ _ _
              (add_edges backtraces catalog process local_entities edges)
              (add_waiting_edge-Builds edge waits g inv) (λ h. add_edges-Builds edges _ h))
      | inr other ↦ rw (other, add_edges) (add_edges-Builds edges waits g inv)
    ]

  add_processes-Builds :
      (processes : List ProcessSnapshotView) (waits : List Pair) (g : WaitGraph)
      → IsWaitGraph waits g
      → Builds
          (all_listed processes)
          (all_waits waits processes)
          (add_processes backtraces catalog processes g)
  unfolding add_processes
  add_processes-Builds [] waits g inv = inl (refl, g, refl, inv)
  add_processes-Builds (process ∷ processes) waits g inv =
      then-Builds process process.snapshot.entities _ (all_listed processes) _ _ _
        (add_processes backtraces catalog processes)
        (add_edges-Builds process process.snapshot.entities process.snapshot.edges waits g inv)
        (λ h. add_processes-Builds processes _ h)

sort_outs-IsWaitGraph :
    (waits : List Pair) (g : WaitGraph) → IsWaitGraph waits g → IsWaitGraph waits (sort_outs g)
unfolding sort_outs
sort_outs-IsWaitGraph waits g inv = record {
  listed = inv.listed;
  apart = inv.apart;
  seen = inv.seen;
  known = inv.known;
  outs = λ a b. sorted a b ∙ inv.outs a b;
  counts = inv.counts;
}
  where
    in_order :
        (b : String) (r : Option (List String))
        → contains b (or_nil (Option.map (λ outs. dedup (sort_by compare outs)) r))
          ≡ contains b (or_nil r)
    in_order b none = refl
    in_order b (some outs) =
        contains-dedup b (sort_by compare outs) ∙ contains-sort_by compare b outs

    sorted :
        (a b : String)
        → contains b (or_nil (get a (sort_outs g).adjacency))
          ≡ contains b (or_nil (get a g.adjacency))
    sorted a b =
        ap (λ r. contains b (or_nil r))
          (get-map_values (λ outs. dedup (sort_by compare outs)) a g.adjacency)
        ∙ in_order b (get a g.adjacency)

-- `build_wait_graph` succeeds exactly if both ends of each wait are entities of its process. Its
-- edges are then the waits of the snapshot, each once, between nodes of the graph; the adjacency
-- lists hold what the edges say, and the counts say, up to the width of `usize`, how many edges lead
-- to a node. Each node describes an entity of a process of the snapshot, under the key of the two;
-- each edge names its process and, in it, the entity at which it ends.
pub build_wait_graph_lem :
    (snapshot : SnapshotCutResponse)
    → ((all_listed snapshot.processes ≡ true)
        × (g : WaitGraph) × (build_wait_graph snapshot ≡ ok g)
        × IsWaitGraph (all_waits [] snapshot.processes) g
        × Labels (Describes snapshot.processes) g)
      ⊎ ((all_listed snapshot.processes ≡ false) × (is_ok (build_wait_graph snapshot) ≡ false))
unfolding build_wait_graph
build_wait_graph_lem snapshot =
    elim (add_processes-Builds (backtrace_index snapshot.backtraces) (frame_catalog snapshot.frames)
      snapshot.processes [] no_graph no_graph-IsWaitGraph) [
        | inl (ends, g, made, inv) ↦
            let built : build_wait_graph snapshot ≡ ok (sort_outs g) =
              rw (made, build_wait_graph) refl in
            inl (
              ends,
              sort_outs g,
              built,
              sort_outs-IsWaitGraph (all_waits [] snapshot.processes) g inv,
              Ensures-ok (Labels (Describes snapshot.processes)) (build_wait_graph snapshot)
                  (sort_outs g) (build_wait_graph-Labels snapshot) built,
            )
        | inr (no_end, failed) ↦ inr (no_end, is_ok-bind _ sort_outs ∙ failed)
      ]
