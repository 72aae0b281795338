-- ===== src/Mcp/Chains.antt =====
-- crates/moire-web/src/mcp/mod.rs `tool_wait_chains`: the chains of waits, from the graph on. `S` is
-- the type of a source excerpt, which the tool only passes on.
pub mod Walks
pub mod Listed
pub mod Found
pub mod Sound
use Prim.Native.String.{compare}
use mathlib.Core.Option
use peeps.Prelude.{
  ℕ, zero, suc, ◌+◌, ◌-◌, Bool, true, false, Option, none, some, List, [], ◌∷◌, ◌++◌, String,
  nat_ord, string_ord, pair_ord, Ord, eqb, max, if◌then◌else◌, leb, ltb, ◌==◌, ◌||◌, ◌&&◌, not,
  concat, decimal, sort_by, dedup, contains, length, map,
}
use peeps.BTreeMap.{BTreeMap, get, insert, keys}
use peeps.Trace.{FrameId}
use peeps.Mcp.Frames.{is_nil}
use peeps.Mcp.Graph.{WaitNode, WaitEdgeRuntime, WaitGraph, or_nil, or_zero}

abbrev pub default_wait_chain_max_depth : ℕ
default_wait_chain_max_depth = 16

abbrev pub default_wait_chain_max_results : ℕ
default_wait_chain_max_results = 200

pub record McpNodeSummary (S : Type 0) : Type 0 where
  pub process_id : String
  pub entity_id : String
  pub name : String
  pub kind : String
  pub source : Option S
  pub sources : List S

pub record McpChainEdge (S : Type 0) : Type 0 where
  pub src_entity_id : String
  pub dst_entity_id : String
  pub wait_site_source : Option S
  pub wait_site_sources : List S

pub record McpWaitChain (S : Type 0) : Type 0 where
  pub chain_id : String
  pub is_cycle : Bool
  pub has_external_wake_source : Bool
  pub summary : String
  pub node_ids : List String
  pub edges : List (McpChainEdge S)
  pub nodes : List (McpNodeSummary S)

abbrev pub external_wake_sources : List String
external_wake_sources =
    "mpsc_rx" ∷ "broadcast_rx" ∷ "watch_rx" ∷ "oneshot_rx" ∷ "notify" ∷ "semaphore" ∷ "net_accept"
    ∷ "net_read" ∷ "request" ∷ "response" ∷ []

unfoldable pub node_has_external_wake_source : String → Bool
node_has_external_wake_source kind = contains kind external_wake_sources

-- The keys of the nodes of one entity identifier.
unfoldable pub keys_of_entity : String → BTreeMap String WaitNode → List String
keys_of_entity root [] = []
keys_of_entity root ((key, node) ∷ nodes) =
    let rest = keys_of_entity root nodes in if eqb node.entity_id root then key ∷ rest else rest

unfoldable pub root_keys : BTreeMap String WaitNode → List String → List String
unfolding keys_of_entity
root_keys nodes [] = []
root_keys nodes (root ∷ roots) = keys_of_entity root nodes ++ root_keys nodes roots

unfoldable pub resolve_roots : BTreeMap String WaitNode → List String → List String
unfolding root_keys
resolve_roots nodes roots = dedup (sort_by compare (root_keys nodes roots))

-- The keys that wait and that nothing waits for.
unfoldable pub heads : BTreeMap String (List String) → BTreeMap String ℕ → List String
heads [] indegree = []
heads ((key, next) ∷ adjacency) indegree =
    let rest = heads adjacency indegree in
    if not (is_nil next) && or_zero (get key indegree) == 0 then key ∷ rest else rest

abbrev pub if_nil : {A : Type 0} → List A → List A → List A
if_nil [] other = other
if_nil (x ∷ xs) other = x ∷ xs

unfoldable pub start_keys : Option (List String) → WaitGraph → List String
unfolding resolve_roots heads
start_keys roots g = dedup (
    sort_by compare (
      if_nil
        (if_nil (or_nil (Option.map (resolve_roots g.nodes) roots)) (heads g.adjacency g.indegree))
        (keys g.adjacency)))

abbrev pub last_of : List String → Option String
last_of [] = none
last_of (x ∷ []) = some x
last_of (x ∷ y ∷ ys) = last_of (y ∷ ys)

-- `path[path.iter().position(|id| id == next)..]`.
abbrev pub from_first : String → List String → List String
from_first next [] = []
from_first next (x ∷ xs) = if eqb x next then x ∷ xs else from_first next xs

unfoldable pub summary_text : Bool → Bool → ℕ → String
summary_text is_cycle truncated n =
    if is_cycle
    then concat "cycle of " (concat (decimal n) " nodes")
    else if truncated
    then concat "chain truncated at " (concat (decimal n) " nodes (max depth reached)")
    else concat "chain of " (concat (decimal n) " nodes")

abbrev pub cons_some : {A : Type 0} → Option A → List A → List A
cons_some none l = l
cons_some (some a) l = a ∷ l

abbrev pub first_of : {A : Type 0} → List A → Option A
first_of [] = none
first_of (a ∷ l) = some a

module _ {S : Type 0} (sources : BTreeMap FrameId S) where
  unfoldable pub sources_for_frame_ids : List FrameId → List S
  sources_for_frame_ids [] = []
  sources_for_frame_ids (id ∷ ids) = cons_some (get id sources) (sources_for_frame_ids ids)

  abbrev pub node_summary : WaitNode → McpNodeSummary S
  node_summary node = record {
    process_id = node.process_id;
    entity_id = node.entity_id;
    name = node.name;
    kind = node.kind;
    source = first_of (sources_for_frame_ids node.frame_ids);
    sources = sources_for_frame_ids node.frame_ids;
  }

  -- The map of the sources at which a wait stands: of two edges with one key the later stays.
  unfoldable pub edge_wait_sources :
      BTreeMap (String × String) (List S)
      → List WaitEdgeRuntime
      → BTreeMap (String × String) (List S)
  unfolding sources_for_frame_ids
  edge_wait_sources m [] = m
  edge_wait_sources m (e ∷ es) =
      edge_wait_sources (insert (e.src_key, e.dst_key) (sources_for_frame_ids e.edge_frame_ids) m)
        es

  module _ (g : WaitGraph) where
    unfoldable pub path_nodes : List String → List (McpNodeSummary S)
    unfolding sources_for_frame_ids
    path_nodes [] = []
    path_nodes (key ∷ path) =
        cons_some (Option.map node_summary (get key g.nodes)) (path_nodes path)

    abbrev pub chain_edge : List S → Option WaitNode → Option WaitNode → Option (McpChainEdge S)
    chain_edge sites none dst = none
    chain_edge sites (some src) none = none
    chain_edge sites (some src) (some dst) = some (record {
      src_entity_id = src.entity_id;
      dst_entity_id = dst.entity_id;
      wait_site_source = first_of sites;
      wait_site_sources = sites;
    })

    -- The loop over `path.windows(2)`.
    unfoldable pub path_edges : List String → List (McpChainEdge S)
    unfolding edge_wait_sources
    path_edges [] = []
    path_edges (a ∷ []) = []
    path_edges (a ∷ b ∷ path) =
        cons_some
          (chain_edge (or_nil (get (a, b) (edge_wait_sources [] g.edges))) (get a g.nodes)
            (get b g.nodes))
          (path_edges (b ∷ path))

    abbrev pub any_external : List (McpNodeSummary S) → Bool
    any_external [] = false
    any_external (node ∷ nodes) = node_has_external_wake_source node.kind || any_external nodes

    unfoldable pub make_chain : ℕ → List String → Bool → Bool → McpWaitChain S
    unfolding path_nodes path_edges summary_text node_has_external_wake_source
    make_chain chain_num path is_cycle truncated =
        let nodes = path_nodes path in
        record {
          chain_id = concat "chain-" (decimal chain_num);
          is_cycle = is_cycle;
          has_external_wake_source = any_external nodes;
          summary = summary_text is_cycle truncated (length nodes);
          node_ids = map (λ (n : McpNodeSummary S). n.entity_id) nodes;
          edges = path_edges path;
          nodes = nodes;
        }
