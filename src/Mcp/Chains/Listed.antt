-- ===== src/Mcp/Chains/Listed.antt =====
-- The chains that are to be found: all walks through the graph, depth first, as they are listed.
use peeps.Prelude.{
  ℕ, zero, suc, ◌+◌, true, false, List, [], ◌∷◌, ◌++◌, String, string_ord, if◌then◌else◌, leb, ◌||◌,
  contains, length,
}
use peeps.BTreeMap.{BTreeMap}
use peeps.Trace.{FrameId}
use peeps.Mcp.Frames.{is_nil}
use peeps.Mcp.Graph.{WaitGraph}
use peeps.Mcp.Chains.{McpWaitChain, make_chain, from_first}
use peeps.Mcp.Chains.Walks.{nexts_of}

-- A walk through the graph, which ends at a node that waits for nothing, at the depth, or at a node
-- it has met.
pub data Walk : Type 0 where
  open_end : List String → Walk
  cycle : List String → Walk

module _ (g : WaitGraph) (max_depth : ℕ) where
  abbrev pub next_walks : (List String → List Walk) → List String → List String → List Walk
  next_walks deeper path [] = []
  next_walks deeper path (next ∷ nexts) =
      (if contains next path
        then cycle (from_first next path ++ next ∷ []) ∷ []
        else deeper (path ++ next ∷ []))
      ++ next_walks deeper path nexts

  -- All the walks on from a path, depth first.
  unfoldable pub walks : ℕ → List String → List Walk
  walks zero path = []
  walks (suc fuel) path =
      let deeper = next_walks (walks fuel) path (nexts_of g path) in
      if is_nil (nexts_of g path) || leb max_depth (length path) then open_end path ∷ [] else deeper

-- All the walks from the start keys.
abbrev pub all_walks : WaitGraph → ℕ → List String → List Walk
all_walks g max_depth [] = []
all_walks g max_depth (start ∷ starts) =
    walks g max_depth max_depth (start ∷ []) ++ all_walks g max_depth starts

module _ {S : Type 0} (sources : BTreeMap FrameId S) (g : WaitGraph) (max_depth : ℕ) where
  abbrev pub chain_of : ℕ → Walk → McpWaitChain S
  chain_of k (open_end path) = make_chain sources g k path false (leb max_depth (length path))
  chain_of k (cycle path) = make_chain sources g k path true false

  -- The chains of walks, numbered on.
  abbrev pub render_from : ℕ → List Walk → List (McpWaitChain S)
  render_from n [] = []
  render_from n (w ∷ ws) = chain_of (n + 1) w ∷ render_from (n + 1) ws
