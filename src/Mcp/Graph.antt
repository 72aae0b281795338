-- ===== src/Mcp/Graph.antt =====
-- crates/moire-web/src/mcp/mod.rs `build_wait_graph`: who waits for whom in a snapshot. The maps and
-- the set of edges seen are maps in key order; nothing here reads that order.
pub mod Building
pub mod Nodes
pub mod Waits
use Prim.Native.String.{compare}
use mathlib.Core.Option
use peeps.Prelude.{
  ℕ, ◌+◌, ◌%◌, ◌^◌, Bool, true, false, Option, none, some, List, [], ◌∷◌, ◌++◌, String, nat_ord,
  string_ord, pair_ord, Ord, eqb, is_some, if◌then◌else◌, Result, ok, err, ◌>>=◌, concat, sort_by,
  dedup,
}
use peeps.BTreeMap.{BTreeMap, get, insert, contains_key}
use peeps.BTreeMap.Values.{map_values}
use peeps.Trace.{FrameId}
use peeps.Types.{EntityId, ProcessId, Entity, Edge, EdgeKind, waiting_on, edge_kind_ord}
use peeps.Types.Bodies.{
  EntityBody, future, lock, mpsc_tx, mpsc_rx, broadcast_tx, broadcast_rx, watch_tx, watch_rx,
  oneshot_tx, oneshot_rx, semaphore, notify, once_cell, command, file_op, net_connect, net_accept,
  net_read, net_write, request, response, custom, aether,
}
use peeps.Types.Snapshot.{ProcessSnapshotView, SnapshotCutResponse}
use peeps.Mcp.Frames.{
  BacktraceIndex, FrameCatalog, backtrace_index, frame_catalog, frame_start_index_for_entity,
  selected_frames_for_backtrace_id, selected_frames_for_entity,
}

abbrev pub source_frames_per_item : ℕ
source_frames_per_item = 3

abbrev pub entity_kind_name : EntityBody → String
entity_kind_name (future skip) = "future"
entity_kind_name (lock kind) = "lock"
entity_kind_name (mpsc_tx tx) = "mpsc_tx"
entity_kind_name mpsc_rx = "mpsc_rx"
entity_kind_name (broadcast_tx capacity) = "broadcast_tx"
entity_kind_name (broadcast_rx lag) = "broadcast_rx"
entity_kind_name (watch_tx at) = "watch_tx"
entity_kind_name watch_rx = "watch_rx"
entity_kind_name (oneshot_tx sent) = "oneshot_tx"
entity_kind_name oneshot_rx = "oneshot_rx"
entity_kind_name (semaphore s) = "semaphore"
entity_kind_name (notify waiters) = "notify"
entity_kind_name (once_cell c) = "once_cell"
entity_kind_name (command c) = "command"
entity_kind_name (file_op op path) = "file_op"
entity_kind_name (net_connect addr) = "net_connect"
entity_kind_name (net_accept addr) = "net_accept"
entity_kind_name (net_read addr) = "net_read"
entity_kind_name (net_write addr) = "net_write"
entity_kind_name (request r) = "request"
entity_kind_name (response r) = "response"
entity_kind_name (custom c) = "custom"
entity_kind_name (aether task) = "aether"

pub record WaitNode : Type 0 where
  pub process_id : String
  pub ptime_now_ms : ℕ
  pub entity_id : String
  pub name : String
  pub kind : String
  pub birth_ms : ℕ
  pub frame_ids : List FrameId

pub record WaitEdgeRuntime : Type 0 where
  pub process_id : String
  pub src_key : String
  pub dst_key : String
  pub dst_entity_id : String
  pub edge_frame_ids : List FrameId

-- The tuple `WaitGraph`, with the set of edges seen.
pub record WaitGraph : Type 0 where
  pub nodes : BTreeMap String WaitNode
  pub edges : List WaitEdgeRuntime
  pub adjacency : BTreeMap String (List String)
  pub indegree : BTreeMap String ℕ
  pub seen_edges : BTreeMap (String × String) (Unit {0})

pub data GraphError : Type 0 where
  missing_src missing_dst : EntityId → ProcessId → GraphError

abbrev pub compose_node_key : ProcessId → EntityId → String
compose_node_key process_id entity_id = concat process_id (concat "::" entity_id)

-- `entry(k).or_insert_with(v)`.
abbrev pub insert_absent : {V : Type 0} → String → V → BTreeMap String V → BTreeMap String V
insert_absent k v m = if contains_key k m then m else insert k v m

abbrev pub or_nil : {A : Type 0} → Option (List A) → List A
or_nil none = []
or_nil (some l) = l

abbrev pub or_zero : Option ℕ → ℕ
or_zero none = 0
or_zero (some n) = n

abbrev pub no_graph : WaitGraph
no_graph = record { nodes = []; edges = []; adjacency = []; indegree = []; seen_edges = [] }

-- An edge that is not in the set yet.
unfoldable pub add_edge : WaitEdgeRuntime → WaitGraph → WaitGraph
add_edge e g = record g {
  edges = g.edges ++ e ∷ [];
  seen_edges = insert (e.src_key, e.dst_key) tt g.seen_edges;
  adjacency = insert e.src_key (or_nil (get e.src_key g.adjacency) ++ e.dst_key ∷ []) g.adjacency;
  indegree =
      insert_absent e.src_key 0
        (insert e.dst_key ((or_zero (get e.dst_key g.indegree) + 1) % 2 ^ 64) g.indegree);
}

-- An edge between two nodes, known or not.
unfoldable pub add_wait : WaitNode → WaitNode → WaitEdgeRuntime → WaitGraph → WaitGraph
unfolding add_edge
add_wait src dst e g =
    let known = record g {
      nodes = insert_absent e.dst_key dst (insert_absent e.src_key src g.nodes);
    } in
    if contains_key (e.src_key, e.dst_key) g.seen_edges then known else add_edge e known

-- The map of a process's entities.
unfoldable pub collect_entities : BTreeMap EntityId Entity → List Entity → BTreeMap EntityId Entity
collect_entities local [] = local
collect_entities local (entity ∷ entities) =
    collect_entities (insert entity.id entity local) entities

unfoldable pub sort_outs : WaitGraph → WaitGraph
sort_outs g = record g { adjacency = map_values (λ outs. dedup (sort_by compare outs)) g.adjacency }

module _ (backtraces : BacktraceIndex) (catalog : FrameCatalog) where
  unfoldable pub wait_node : ProcessSnapshotView → Entity → WaitNode
  wait_node process entity = record {
    process_id = process.process_id;
    ptime_now_ms = process.ptime_now_ms;
    entity_id = entity.id;
    name = entity.name;
    kind = entity_kind_name entity.body;
    birth_ms = entity.birth;
    frame_ids = selected_frames_for_entity entity backtraces catalog source_frames_per_item;
  }

  unfoldable pub wait_edge : ProcessSnapshotView → Edge → Entity → Entity → WaitEdgeRuntime
  wait_edge process edge src dst = record {
    process_id = process.process_id;
    src_key = compose_node_key process.process_id src.id;
    dst_key = compose_node_key process.process_id dst.id;
    dst_entity_id = dst.id;
    edge_frame_ids =
        selected_frames_for_backtrace_id edge.backtrace backtraces catalog
          (frame_start_index_for_entity src) source_frames_per_item;
  }

  module _ (process : ProcessSnapshotView) (local : BTreeMap EntityId Entity) where
    -- The body of the loop over the edges, for an edge that waits.
    unfoldable pub add_waiting_edge : Edge → WaitGraph → Result GraphError WaitGraph
    unfolding add_wait wait_node wait_edge
    add_waiting_edge edge g = elim (get edge.src local) [
      | none ↦ err (missing_src edge.src process.process_id)
      | some src ↦ elim (get edge.dst local) [
        | none ↦ err (missing_dst edge.dst process.process_id)
        | some dst ↦ ok (
            add_wait (wait_node process src) (wait_node process dst)
              (wait_edge process edge src dst) g)
      ]
    ]

    unfoldable pub add_edges : List Edge → WaitGraph → Result GraphError WaitGraph
    unfolding add_waiting_edge
    add_edges [] g = ok g
    add_edges (edge ∷ edges) g =
        (if eqb edge.kind waiting_on then add_waiting_edge edge g else ok g) >>= add_edges edges

  unfoldable pub add_processes : List ProcessSnapshotView → WaitGraph → Result GraphError WaitGraph
  unfolding add_edges collect_entities
  add_processes [] g = ok g
  add_processes (process ∷ processes) g =
      add_edges process (collect_entities [] process.snapshot.entities) process.snapshot.edges g
      >>= add_processes processes

unfoldable pub build_wait_graph : SnapshotCutResponse → Result GraphError WaitGraph
unfolding add_processes sort_outs
build_wait_graph snapshot =
    add_processes (backtrace_index snapshot.backtraces) (frame_catalog snapshot.frames)
      snapshot.processes no_graph
    >>= λ g. ok (sort_outs g)
