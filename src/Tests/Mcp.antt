-- ===== src/Tests/Mcp.antt =====
-- Runs of crates/moire-web/src/mcp/mod.rs: two tasks that wait for each other's lock.
use peeps.Prelude.{
  ℕ, ◌≤◌, ◌≡◌, refl, pos, Bool, true, false, Option, none, some, List, [], ◌∷◌, String, nat_ord,
  string_ord, arith, take, length, All, Result, ok, err, is_ok, inl, inr, ◌⊎◌, Within,
}
use peeps.BTreeMap.{get}
use peeps.Types.{Entity, waiting_on, polls, new_edge}
use peeps.Types.Bodies.{EntityBody, future, lock, mutex}
use peeps.Types.Snapshot.{
  Snapshot, SnapshotCutResponse, SnapshotBacktrace, SnapshotBacktraceFrame, resolved,
}
use peeps.Mcp.Frames.{FrameCatalog, select_frames_for_backtrace}
use peeps.Mcp.Frames.Selection.{IsSelection, select_frames_for_backtrace-IsSelection}
use peeps.Mcp.Graph.{WaitGraph, build_wait_graph, WaitNode}
use peeps.Mcp.Graph.Building.{IsWaitGraph}
use peeps.Mcp.Graph.Nodes.{Labels, Describes}
use peeps.Mcp.Graph.Waits.{all_waits, all_listed, build_wait_graph_lem}
use peeps.Mcp.Chains.{start_keys, default_wait_chain_max_results}
use peeps.Mcp.Chains.Walks.{wait_chains}
use peeps.Mcp.Chains.Listed.{all_walks, render_from}
use peeps.Mcp.Chains.Sound.{IsWalk, wait_chains-AreWalks}

abbrev entity : String → EntityBody → Entity
entity id body = record {
  id = id;
  birth = 5;
  removed_at = none;
  backtrace = 1;
  name = id;
  body = body;
}

-- Task `a` waits for the lock `b`, and the lock for the task that holds it.
abbrev deadlocked : Snapshot
deadlocked = record {
  entities = entity "a" (future none) ∷ entity "b" (lock mutex) ∷ [];
  scopes = [];
  edges =
      new_edge "a" "b" waiting_on 1
      ∷ new_edge "b" "a" polls 1
      ∷ new_edge "b" "a" waiting_on 1
      ∷ new_edge "a" "b" waiting_on 2
      ∷ [];
  events = [];
}

abbrev app_frame : SnapshotBacktraceFrame
app_frame = resolved (record {
  module_path = "app";
  function_name = "app::main";
  source_file = "main.rs";
  line = none;
})

abbrev std_frame : SnapshotBacktraceFrame
std_frame = resolved (record {
  module_path = "std";
  function_name = "<alloc::vec::Vec<u8> as core::fmt::Debug>::fmt";
  source_file = "vec.rs";
  line = none;
})

abbrev backtrace : SnapshotBacktrace
backtrace = record { backtrace_id = 1; frame_ids = 10 ∷ 11 ∷ 10 ∷ 12 ∷ [] }

abbrev catalog : FrameCatalog
catalog = (10, std_frame) ∷ (11, app_frame) ∷ []

abbrev cut : SnapshotCutResponse
cut = record {
  snapshot_id = pos 1;
  captured_at_unix_ms = pos 9;
  processes =
      record {
        process_id = "p";
        process_name = "app";
        pid = 7;
        ptime_now_ms = 20;
        snapshot = deadlocked;
        scope_entity_links = [];
      }
      ∷ [];
  timed_out_processes = [];
  backtraces = backtrace ∷ [];
  frames =
      record { frame_id = 10; frame = std_frame }
      ∷ record { frame_id = 11; frame = app_frame }
      ∷ [];
}

-- The application's frame comes first.
selected_frames : select_frames_for_backtrace backtrace catalog 0 3 ≡ 11 ∷ 10 ∷ 12 ∷ []
unfolding select_frames_for_backtrace get peeps.Mcp.Frames.is_application_frame peeps.Prelude.trim
    peeps.Mcp.Frames.is_resolved_frame
selected_frames = refl

select_frames_for_backtrace-IsSelection_example :
    let out = select_frames_for_backtrace backtrace catalog 0 2 in
    IsSelection backtrace.frame_ids 2 out × ((length out ≡ 2) ⊎ Within out backtrace.frame_ids)
select_frames_for_backtrace-IsSelection_example =
    select_frames_for_backtrace-IsSelection backtrace catalog 0 2

build_wait_graph_lem_example :
    ((all_listed cut.processes ≡ true)
      × (g : WaitGraph) × (build_wait_graph cut ≡ ok g)
      × IsWaitGraph (all_waits [] cut.processes) g
      × Labels (Describes cut.processes) g)
    ⊎ ((all_listed cut.processes ≡ false) × (is_ok (build_wait_graph cut) ≡ false))
build_wait_graph_lem_example = build_wait_graph_lem cut

abbrev node : String → WaitNode
node id = record {
  process_id = "p";
  ptime_now_ms = 20;
  entity_id = id;
  name = id;
  kind = "future";
  birth_ms = 5;
  frame_ids = [];
}

abbrev ring : WaitGraph
ring = record {
  nodes = ("p::a", node "a") ∷ ("p::b", node "b") ∷ [];
  edges = [];
  adjacency = ("p::a", "p::b" ∷ []) ∷ ("p::b", "p::a" ∷ []) ∷ [];
  indegree = ("p::a", 1) ∷ ("p::b", 1) ∷ [];
  seen_edges = [];
}

wait_chains-AreWalks_example :
    let listed = take default_wait_chain_max_results (all_walks ring 4 (start_keys none ring)) in
    (wait_chains {S = String} [] ring none (some 4)
      ≡ some (render_from {S = String} [] ring 4 0 listed))
    × All (IsWalk ring 4) listed
wait_chains-AreWalks_example = wait_chains-AreWalks [] ring none (some 4)
