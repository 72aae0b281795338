-- ===== src/Mcp/Graph/Nodes.antt =====
-- The nodes of a graph describe entities of the snapshot, each under its own key.
use peeps.Prelude.{
  ◌≡◌, refl, List, [], ◌∷◌, String, nat_ord, string_ord, pair_ord, eqb, All, All-append, All-mono,
  Bool-cases, Option-cases, inl, inr, ◌⊎◌, ok, Ensures, Ensures-bind,
}
use peeps.BTreeMap.{BTreeMap, get, insert, contains_key}
use peeps.BTreeMap.Each.{get-All, insert-All}
use peeps.Types.{EntityId, Entity, Edge, waiting_on, edge_kind_ord}
use peeps.Types.Snapshot.{ProcessSnapshotView, SnapshotCutResponse}
use peeps.Mcp.Frames.{BacktraceIndex, FrameCatalog, backtrace_index, frame_catalog}
use peeps.Mcp.Graph.{
  WaitNode, WaitEdgeRuntime, WaitGraph, compose_node_key, entity_kind_name, insert_absent, add_edge,
  add_wait, wait_node, wait_edge, add_waiting_edge, add_edges, add_processes, collect_entities,
  sort_outs, no_graph, build_wait_graph,
}

-- A node that describes an entity of a process, under the key of both.
pub record IsNode (process : ProcessSnapshotView) (entity : Entity) (key : String) (node : WaitNode)
    : Type 0 where
  pub keyed : key ≡ compose_node_key process.process_id entity.id
  pub of_process : node.process_id ≡ process.process_id
  pub timed : node.ptime_now_ms ≡ process.ptime_now_ms
  pub of_entity : node.entity_id ≡ entity.id
  pub named : node.name ≡ entity.name
  pub of_kind : node.kind ≡ entity_kind_name entity.body
  pub born : node.birth_ms ≡ entity.birth

abbrev pub AnyOf : {A : Type 0} → (A → Type 0) → List A → Type 0
AnyOf P [] = ⊥
AnyOf P (x ∷ xs) = P x ⊎ AnyOf P xs

-- A node that describes one of the entities of some processes.
abbrev pub Describes : List ProcessSnapshotView → String → WaitNode → Type 0
Describes processes key node =
    AnyOf
      (λ (process : ProcessSnapshotView).
        AnyOf (λ (entity : Entity). IsNode process entity key node) process.snapshot.entities)
      processes

-- An edge names its process, and in it the entity at which it ends.
abbrev pub IsLabelled : WaitEdgeRuntime → Type 0
IsLabelled e = e.dst_key ≡ compose_node_key e.process_id e.dst_entity_id

module _ (P : String → WaitNode → Type 0) where
  -- Each node of a graph satisfies `P` at its key, and each edge is labelled.
  pub record Labels (g : WaitGraph) : Type 0 where
    pub nodes : All (λ (e : String × WaitNode). P e.0 e.1) g.nodes
    pub edges : All IsLabelled g.edges

  insert_absent-All :
      (key : String) (node : WaitNode) (m : BTreeMap String WaitNode)
      → P key node
      → All (λ (e : String × WaitNode). P e.0 e.1) m
      → All (λ (e : String × WaitNode). P e.0 e.1) (insert_absent key node m)
  insert_absent-All key node m p h = elim (Bool-cases (contains_key key m)) [
    | inl there ↦ rw (there, insert_absent) h
    | inr absent ↦
        rw (absent, insert_absent)
          (insert-All (λ (e : String × WaitNode). P e.0 e.1) key node m p h)
  ]

  add_wait-Labels :
      (src dst : WaitNode) (e : WaitEdgeRuntime) (g : WaitGraph)
      → P e.src_key src
      → P e.dst_key dst
      → IsLabelled e
      → Labels g
      → Labels (add_wait src dst e g)
  unfolding add_wait add_edge
  add_wait-Labels src dst e g p q named h =
      let nodes =
        insert_absent-All e.dst_key dst (insert_absent e.src_key src g.nodes) q
          (insert_absent-All e.src_key src g.nodes p h.nodes) in
      elim (Bool-cases (contains_key (e.src_key, e.dst_key) g.seen_edges)) [
        | inl old ↦ rw (old, add_wait) (record { nodes = nodes; edges = h.edges })
        | inr new ↦
            rw (new, add_wait)
              (record {
                nodes = nodes;
                edges = All-append IsLabelled g.edges (e ∷ []) h.edges (named, tt);
              })
      ]

  module _ (backtraces : BacktraceIndex) (catalog : FrameCatalog) where
    -- The entities of a process have nodes that satisfy `P`.
    abbrev pub Allows : ProcessSnapshotView → Entity → Type 0
    Allows process entity =
        P (compose_node_key process.process_id entity.id)
          (wait_node backtraces catalog process entity)

    module _ (process : ProcessSnapshotView) where
      abbrev AllowsEntry : EntityId × Entity → Type 0
      AllowsEntry e = Allows process e.1

      collect_entities-All :
          (local : BTreeMap EntityId Entity) (entities : List Entity)
          → All AllowsEntry local
          → All (Allows process) entities
          → All AllowsEntry (collect_entities local entities)
      unfolding collect_entities
      collect_entities-All local [] h a = h
      collect_entities-All local (e ∷ es) h (here, a) =
          collect_entities-All (insert e.id e local) es (insert-All AllowsEntry e.id e local here h)
            a

      module _ (local : BTreeMap EntityId Entity) (allowed : All AllowsEntry local) where
        add_waiting_edge-Labels :
            (edge : Edge) (g : WaitGraph)
            → Labels g
            → Ensures Labels (add_waiting_edge backtraces catalog process local edge g)
        unfolding add_waiting_edge wait_edge
        add_waiting_edge-Labels edge g h = elim (Option-cases (get edge.src local)) [
          | inl e ↦ rw (e, add_waiting_edge) tt
          | inr (src, e) ↦ elim (Option-cases (get edge.dst local)) [
            | inl d ↦ rw (e, add_waiting_edge, d) tt
            | inr (dst, d) ↦
                rw (e, add_waiting_edge, d)
                  (add_wait-Labels (wait_node backtraces catalog process src)
                    (wait_node backtraces catalog process dst)
                    (wait_edge backtraces catalog process edge src dst) g
                    (get-All AllowsEntry edge.src src local allowed e)
                    (get-All AllowsEntry edge.dst dst local allowed d) refl h)
          ]
        ]

        add_edges-Labels :
            (edges : List Edge) (g : WaitGraph)
            → Labels g
            → Ensures Labels (add_edges backtraces catalog process local edges g)
        unfolding add_edges
        add_edges-Labels [] g h = h
        add_edges-Labels (edge ∷ edges) g h = elim (Bool-cases (eqb edge.kind waiting_on)) [
          | inl waits ↦
              rw (waits, add_edges)
                (Ensures-bind Labels Labels
                  (add_waiting_edge backtraces catalog process local edge g)
                  (add_edges backtraces catalog process local edges)
                  (add_waiting_edge-Labels edge g h)
                  (λ later known. add_edges-Labels edges later known))
          | inr other ↦ rw (other, add_edges) (add_edges-Labels edges g h)
        ]

    add_processes-Labels :
        (processes : List ProcessSnapshotView) (g : WaitGraph)
        → All
            (λ (process : ProcessSnapshotView). All (Allows process) process.snapshot.entities)
            processes
        → Labels g
        → Ensures Labels (add_processes backtraces catalog processes g)
    unfolding add_processes
    add_processes-Labels [] g allowed h = h
    add_processes-Labels (process ∷ processes) g (here, allowed) h =
        Ensures-bind Labels Labels
          (add_edges backtraces catalog process (collect_entities [] process.snapshot.entities)
            process.snapshot.edges g)
          (add_processes backtraces catalog processes)
          (add_edges-Labels process (collect_entities [] process.snapshot.entities)
            (collect_entities-All process [] process.snapshot.entities tt here)
            process.snapshot.edges g h)
          (λ later known. add_processes-Labels processes later allowed known)

-- What holds of an element of a list holds of one of them.
AnyOf-each : {A : Type 0} (xs : List A) → All (λ (x : A). (Q : A → Type 0) → Q x → AnyOf Q xs) xs
AnyOf-each [] = tt
AnyOf-each (x ∷ xs) =
    (λ Q q. inl q, All-mono _ _ xs (λ y later Q q. inr (later Q q)) (AnyOf-each xs))

module _ (backtraces : BacktraceIndex) (catalog : FrameCatalog) where
  wait_node-IsNode :
      (process : ProcessSnapshotView) (entity : Entity)
      → IsNode process entity
          (compose_node_key process.process_id entity.id)
          (wait_node backtraces catalog process entity)
  unfolding wait_node
  wait_node-IsNode process entity = record {
    keyed = refl;
    of_process = refl;
    timed = refl;
    of_entity = refl;
    named = refl;
    of_kind = refl;
    born = refl;
  }

  -- The nodes of the entities of some processes describe them.
  entities-Describes :
      (processes : List ProcessSnapshotView)
      → All
          (λ (process : ProcessSnapshotView).
            All (Allows (Describes processes) backtraces catalog process) process.snapshot.entities)
          processes
  entities-Describes processes =
      All-mono _ _ processes
        (λ process in_process.
          All-mono _ _ process.snapshot.entities
            (λ entity in_entity. in_process _ (in_entity _ (wait_node-IsNode process entity)))
            (AnyOf-each process.snapshot.entities))
        (AnyOf-each processes)

-- The graph of a snapshot, where there is one, describes the entities of its processes.
pub build_wait_graph-Labels :
    (snapshot : SnapshotCutResponse)
    → Ensures (Labels (Describes snapshot.processes)) (build_wait_graph snapshot)
unfolding build_wait_graph sort_outs
build_wait_graph-Labels snapshot =
    Ensures-bind (Labels (Describes snapshot.processes)) (Labels (Describes snapshot.processes))
      (add_processes (backtrace_index snapshot.backtraces) (frame_catalog snapshot.frames)
        snapshot.processes no_graph)
      (λ g. ok (sort_outs g))
      (add_processes-Labels (Describes snapshot.processes) (backtrace_index snapshot.backtraces)
        (frame_catalog snapshot.frames) snapshot.processes no_graph
        (entities-Describes (backtrace_index snapshot.backtraces) (frame_catalog snapshot.frames)
          snapshot.processes)
        (record { nodes = tt; edges = tt }))
      (λ g h. record { nodes = h.nodes; edges = h.edges })
