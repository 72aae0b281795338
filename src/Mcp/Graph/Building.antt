-- ===== src/Mcp/Graph/Building.antt =====
-- One wait after another: what `add_wait` keeps of the graph.
use peeps.Prelude.{
  ℕ, ◌+◌, ◌%◌, ◌^◌, ◌≡◌, refl, sym, ap, ◌∙◌, true, List, [], ◌∷◌, ◌++◌, map, String, nat_ord,
  string_ord, pair_ord, eqb, eqb_iff, if◌then◌else◌, arith, All, All-append, All-mono, contains,
  contains-append, Distinct, Distinct-snoc, ◌||◌, Bool-cases, inl, inr,
}
use peeps.BTreeMap.{BTreeMap, get, insert, contains_key}
use peeps.BTreeMap.Laws.{get-insert}
use peeps.Mcp.Graph.{
  WaitNode, WaitEdgeRuntime, WaitGraph, no_graph, or_nil, or_zero, insert_absent, add_edge,
  add_wait,
}

abbrev pub Pair : Type 0
Pair = String × String

abbrev pub pair_of : WaitEdgeRuntime → Pair
pair_of e = (e.src_key, e.dst_key)

abbrev pub pairs : List WaitEdgeRuntime → List Pair
pairs = map pair_of

-- How many pairs lead to a key.
abbrev pub count_into : String → List Pair → ℕ
count_into k [] = 0
count_into k ((a, b) ∷ ps) = if eqb b k then count_into k ps + 1 else count_into k ps

-- The graph of a list of waits: each wait is one edge, between nodes that are there; the
-- adjacency lists and the counts say what the edges say.
pub record IsWaitGraph (waits : List Pair) (g : WaitGraph) : Type 0 where
  pub listed : (p : Pair) → contains p (pairs g.edges) ≡ contains p waits
  pub apart : Distinct (pairs g.edges)
  pub seen : (p : Pair) → contains_key p g.seen_edges ≡ contains p (pairs g.edges)
  pub known :
      All
        (λ (e : WaitEdgeRuntime).
          (contains_key e.src_key g.nodes ≡ true) × (contains_key e.dst_key g.nodes ≡ true))
        g.edges
  pub outs :
      (a b : String) → contains b (or_nil (get a g.adjacency)) ≡ contains (a, b) (pairs g.edges)
  pub counts : (k : String) → or_zero (get k g.indegree) ≡ count_into k (pairs g.edges) % 2 ^ 64

pub no_graph-IsWaitGraph : IsWaitGraph [] no_graph
unfolding get
no_graph-IsWaitGraph = record {
  listed = λ p. refl;
  apart = tt;
  seen = λ p. refl;
  known = tt;
  outs = λ a b. refl;
  counts = λ k. omega arith;
}

pairs-append : (xs ys : List WaitEdgeRuntime) → pairs (xs ++ ys) ≡ pairs xs ++ pairs ys
pairs-append [] ys = refl
pairs-append (x ∷ xs) ys = ap (◌∷◌ (pair_of x)) (pairs-append xs ys)

count_into-snoc :
    (k a b : String) (ps : List Pair)
    → count_into k (ps ++ (a, b) ∷ []) ≡ (if eqb b k then count_into k ps + 1 else count_into k ps)
count_into-snoc k a b [] = refl
count_into-snoc k a b ((x, y) ∷ ps) = ground (arith, count_into-snoc k a b ps)

contains_key-insert_absent :
    {V : Type 0} (q k : String) (v : V) (m : BTreeMap String V)
    → contains_key q (insert_absent k v m) ≡ (eqb q k || contains_key q m)
contains_key-insert_absent q k v m = ground (arith, get-insert q k v m, eqb_iff q k)

or_zero-insert_absent :
    (q k : String) (m : BTreeMap String ℕ)
    → or_zero (get q (insert_absent k 0 m)) ≡ or_zero (get q m)
or_zero-insert_absent q k m = ground (arith, get-insert q k 0 m, eqb_iff q k)

module _ (src dst : WaitNode) (e : WaitEdgeRuntime) (waits : List Pair) (g : WaitGraph)
    (inv : IsWaitGraph waits g) where
  abbrev nodes_after : BTreeMap String WaitNode
  nodes_after = insert_absent e.dst_key dst (insert_absent e.src_key src g.nodes)

  nodes_kept : (k : String) → contains_key k g.nodes ≡ true → contains_key k nodes_after ≡ true
  nodes_kept k h = ground (
    arith,
    contains_key-insert_absent k e.dst_key dst (insert_absent e.src_key src g.nodes),
    contains_key-insert_absent k e.src_key src g.nodes,
  )

  endpoints :
      (contains_key e.src_key nodes_after ≡ true) × (contains_key e.dst_key nodes_after ≡ true)
  endpoints = ground (
    arith,
    contains_key-insert_absent e.src_key e.dst_key dst (insert_absent e.src_key src g.nodes),
    contains_key-insert_absent e.dst_key e.dst_key dst (insert_absent e.src_key src g.nodes),
    contains_key-insert_absent e.src_key e.src_key src g.nodes,
    eqb_iff e.src_key e.src_key,
    eqb_iff e.dst_key e.dst_key,
  )

  known_after :
      All
        (λ (e : WaitEdgeRuntime).
          (contains_key e.src_key nodes_after ≡ true) × (contains_key e.dst_key nodes_after ≡ true))
        g.edges
  known_after =
      All-mono _ _ g.edges (λ d h. (nodes_kept d.src_key h.0, nodes_kept d.dst_key h.1)) inv.known

  contains-waits :
      (p : Pair) → contains p (waits ++ pair_of e ∷ []) ≡ (contains p waits || eqb (pair_of e) p)
  contains-waits p = ground (arith, contains-append p waits (pair_of e ∷ []))

  contains-pairs :
      (p : Pair)
      → contains p (pairs (g.edges ++ e ∷ [])) ≡ (contains p (pairs g.edges) || eqb (pair_of e) p)
  contains-pairs p = ground (
    arith,
    ap (contains p) (pairs-append g.edges (e ∷ [])),
    contains-append p (pairs g.edges) (pair_of e ∷ []),
  )

  outs_after :
      (a b : String)
      → contains b (or_nil (get a (add_edge e g).adjacency))
        ≡ contains (a, b) (pairs (g.edges ++ e ∷ []))
  unfolding add_edge
  outs_after a b = ground (
    arith,
    contains-pairs (a, b),
    inv.outs a b,
    get-insert a e.src_key (or_nil (get e.src_key g.adjacency) ++ e.dst_key ∷ []) g.adjacency,
    contains-append b (or_nil (get e.src_key g.adjacency)) (e.dst_key ∷ []),
    eqb_iff a e.src_key,
    eqb_iff e.dst_key b,
    eqb_iff (pair_of e) (a, b),
  )

  counts_after :
      (k : String)
      → or_zero (get k (add_edge e g).indegree) ≡ count_into k (pairs (g.edges ++ e ∷ [])) % 2 ^ 64
  unfolding add_edge
  counts_after k =
      let bumped = (or_zero (get e.dst_key g.indegree) + 1) % 2 ^ 64 in
      ground (
        arith,
        or_zero-insert_absent k e.src_key (insert e.dst_key bumped g.indegree),
        get-insert k e.dst_key bumped g.indegree,
        inv.counts k,
        inv.counts e.dst_key,
        ap (count_into k) (pairs-append g.edges (e ∷ [])),
        count_into-snoc k e.src_key e.dst_key (pairs g.edges),
        eqb_iff k e.dst_key,
        eqb_iff e.dst_key k,
      )

  pub add_wait-IsWaitGraph : IsWaitGraph (waits ++ pair_of e ∷ []) (add_wait src dst e g)
  unfolding add_wait add_edge
  add_wait-IsWaitGraph = elim (Bool-cases (contains_key (pair_of e) g.seen_edges)) [
    | inl old ↦
        rw (old, add_wait)
          (record {
            listed = λ p. ground (
              arith,
              inv.listed p,
              inv.listed (pair_of e),
              inv.seen (pair_of e),
              contains-waits p,
              eqb_iff (pair_of e) p,
            );
            apart = inv.apart;
            seen = inv.seen;
            known = known_after;
            outs = inv.outs;
            counts = inv.counts;
          })
    | inr new ↦
        rw (new, add_wait)
          (record {
            listed = λ p. ground (arith, inv.listed p, contains-pairs p, contains-waits p);
            apart = rw (pairs-append g.edges (e ∷ [])) (
                Distinct-snoc (pair_of e) (pairs g.edges) inv.apart
                  (sym (inv.seen (pair_of e)) ∙ new));
            seen = λ p. ground (
              arith,
              inv.seen p,
              contains-pairs p,
              get-insert p (pair_of e) tt g.seen_edges,
              eqb_iff p (pair_of e),
              eqb_iff (pair_of e) p,
            );
            known = All-append _ g.edges (e ∷ []) known_after (endpoints, tt);
            outs = λ a b. outs_after a b;
            counts = λ k. counts_after k;
          })
  ]
