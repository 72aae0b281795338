-- ===== src/Mcp/Chains/Walks.antt =====
-- crates/moire-web/src/mcp/mod.rs `walk_wait_paths` and the loop over the start keys. The depth of
-- the recursion is fuel: `none` means that it ran out.
use mathlib.Core.Option
use peeps.Prelude.{
  ℕ, zero, suc, ◌+◌, Bool, true, false, Option, none, some, List, [], ◌∷◌, ◌++◌, String, string_ord,
  max, if◌then◌else◌, leb, ◌||◌, contains, length,
}
use peeps.BTreeMap.{BTreeMap, get}
use peeps.Trace.{FrameId}
use peeps.Mcp.Frames.{is_nil}
use peeps.Mcp.Graph.{WaitGraph, or_nil}
use peeps.Mcp.Chains.{
  McpWaitChain, make_chain, last_of, from_first, start_keys, default_wait_chain_max_depth,
  default_wait_chain_max_results,
}

-- `chains` and `chain_count`.
pub record Walked (S : Type 0) : Type 0 where
  pub chains : List (McpWaitChain S)
  pub chain_count : ℕ

abbrev pub bind_some : {A B : Type 0} → Option A → (A → Option B) → Option B
bind_some none f = none
bind_some (some a) f = f a

-- The nodes that the end of a path waits for.
abbrev pub nexts_of : WaitGraph → List String → List String
nexts_of g path = or_nil (bind_some (last_of path) (λ current. get current g.adjacency))

module _ {S : Type 0} where
  abbrev pub is_full : Walked S → Bool
  is_full w = leb default_wait_chain_max_results (length w.chains)

module _ {S : Type 0} (sources : BTreeMap FrameId S) (g : WaitGraph) (max_depth : ℕ) where
  abbrev pub push_chain : List String → Bool → Bool → Walked S → Walked S
  push_chain path is_cycle truncated w = record {
    chains = w.chains ++ make_chain sources g (w.chain_count + 1) path is_cycle truncated ∷ [];
    chain_count = w.chain_count + 1;
  }

  -- The loop over `nexts`; `deeper` is the recursive call at a longer path.
  unfoldable pub walk_nexts :
      (List String → Walked S → Option (Walked S))
      → List String
      → List String
      → Walked S
      → Option (Walked S)
  unfolding make_chain
  walk_nexts deeper path [] w = some w
  walk_nexts deeper path (next ∷ nexts) w =
      bind_some
        (if contains next path
          then some (push_chain (from_first next path ++ next ∷ []) true false w)
          else deeper (path ++ next ∷ []) w)
        (λ w'. if is_full w' then some w' else walk_nexts deeper path nexts w')

  unfoldable pub walk_wait_paths : ℕ → List String → Walked S → Option (Walked S)
  unfolding walk_nexts
  walk_wait_paths zero path w = none
  walk_wait_paths (suc fuel) path w =
      let deeper = walk_nexts (walk_wait_paths fuel) path (nexts_of g path) w in
      if is_full w
      then some w
      else if is_nil path
      then some w
      else if is_nil (nexts_of g path) || leb max_depth (length path)
      then some (push_chain path false (leb max_depth (length path)) w)
      else deeper

  -- The loop over the start keys.
  unfoldable pub walk_starts : List String → Walked S → Option (Walked S)
  unfolding walk_wait_paths
  walk_starts [] w = some w
  walk_starts (start ∷ starts) w =
      if is_full w
      then some w
      else bind_some (walk_wait_paths max_depth (start ∷ []) w) (walk_starts starts)

abbrev pub depth_of : Option ℕ → ℕ
depth_of none = default_wait_chain_max_depth
depth_of (some n) = max n 1

-- The chains that `tool_wait_chains` lists.
unfoldable pub wait_chains :
    {S : Type 0}
    → BTreeMap FrameId S
    → WaitGraph
    → Option (List String)
    → Option ℕ
    → Option (List (McpWaitChain S))
unfolding walk_starts start_keys
wait_chains sources g roots max_depth =
    Option.map (λ w. w.chains)
      (walk_starts sources g (depth_of max_depth) (start_keys roots g)
        (record { chains = []; chain_count = 0 }))
