-- ===== src/Mcp/Chains/Found.antt =====
-- The chains listed are the first of all walks.
use mathlib.Core.Option
use mathlib.Core.List.{append-nil}
use peeps.Prelude.{
  leb→le, leb→lt, length-take, take-append_le, take_all, take_full, take_more, take-take, ℕ, zero,
  suc, ◌+◌, ◌≤◌, ◌<◌, ◌≡◌, refl, sym, ap, ◌∙◌, Bool, true, false, Option, none, some, List, [], ◌∷◌,
  ◌++◌, String, string_ord, if◌then◌else◌, leb, ◌||◌, contains, length, take, length-append, arith,
  Bool-cases, inl, inr,
}
use peeps.BTreeMap.{BTreeMap}
use peeps.Trace.{FrameId}
use peeps.Mcp.Frames.{is_nil}
use peeps.Mcp.Graph.{WaitGraph}
use peeps.Mcp.Chains.{from_first, start_keys, default_wait_chain_max_results}
use peeps.Mcp.Chains.Walks.{
  Walked, bind_some, is_full, push_chain, walk_nexts, nexts_of, walk_wait_paths, walk_starts,
  depth_of, wait_chains,
}
use peeps.Mcp.Chains.Listed.{
  Walk, open_end, cycle, next_walks, walks, all_walks, chain_of, render_from,
}

pub or_false : (a b : Bool) → (a || b) ≡ false → b ≡ false
or_false a b h = ground arith

module _ {S : Type 0} (sources : BTreeMap FrameId S) (g : WaitGraph) (max_depth : ℕ) where
  length-render_from :
      (n : ℕ) (ws : List Walk) → length (render_from sources g max_depth n ws) ≡ length ws
  length-render_from n [] = refl
  length-render_from n (w ∷ ws) = ap suc (length-render_from (n + 1) ws)

  render_from-snoc :
      (n : ℕ) (ws : List Walk) (w : Walk)
      → render_from sources g max_depth n (ws ++ w ∷ [])
        ≡ render_from sources g max_depth n ws
          ++ chain_of sources g max_depth (n + length ws + 1) w ∷ []
  render_from-snoc n [] w =
      let same : n + 1 ≡ n + 0 + 1 = omega arith in
      ap (λ k. chain_of sources g max_depth k w ∷ []) same
  render_from-snoc n (v ∷ ws) w =
      let same : n + 1 + length ws + 1 ≡ n + suc (length ws) + 1 = omega arith in
      ap (◌∷◌ (chain_of sources g max_depth (n + 1) v)) (
        render_from-snoc (n + 1) ws w
        ∙ ap
            (λ k.
              render_from sources g max_depth (n + 1) ws ++ chain_of sources g max_depth k w ∷ [])
            same)

  abbrev state_of : List Walk → Walked S
  state_of ws = record { chains = render_from sources g max_depth 0 ws; chain_count = length ws }

  pushed :
      (ws : List Walk) (w : Walk)
      → record {
        chains =
            render_from sources g max_depth 0 ws
            ++ chain_of sources g max_depth (length ws + 1) w ∷ [];
        chain_count = length ws + 1;
      }
        ≡ state_of (ws ++ w ∷ [])
  pushed ws w =
      let same : 0 + length ws + 1 ≡ length ws + 1 = omega arith in
      let chains =
        ap (λ k. render_from sources g max_depth 0 ws ++ chain_of sources g max_depth k w ∷ [])
          (sym same)
        ∙ sym (render_from-snoc 0 ws w) in
      let count : length ws + 1 ≡ length (ws ++ w ∷ []) =
        omega (arith, length-append ws (w ∷ [])) in
      λ i. record { chains = chains i; chain_count = count i }

  full : (ws : List Walk) → is_full (state_of ws) ≡ leb default_wait_chain_max_results (length ws)
  full ws = ap (leb default_wait_chain_max_results) (length-render_from 0 ws)

  -- What a search on from a path leaves.
  abbrev Finds : (Walked S → Option (Walked S)) → List Walk → Type 0
  Finds search found =
      (ws : List Walk)
      → length ws ≤ default_wait_chain_max_results
      → search (state_of ws) ≡ some (state_of (take default_wait_chain_max_results (ws ++ found)))

  module _ (fuel : ℕ) (path : List String) where
    abbrev piece : String → List Walk
    piece next =
        if contains next path
        then cycle (from_first next path ++ next ∷ []) ∷ []
        else walks g max_depth fuel (path ++ next ∷ [])

    module _
        (deep : (next : String)
          → Finds
              (walk_wait_paths sources g max_depth fuel (path ++ next ∷ []))
              (walks g max_depth fuel (path ++ next ∷ []))) where
      abbrev limit : ℕ
      limit = default_wait_chain_max_results

      abbrev step : String → Walked S → Option (Walked S)
      step next w =
          if contains next path
          then some
              (push_chain sources g max_depth (from_first next path ++ next ∷ []) true false w)
          else walk_wait_paths sources g max_depth fuel (path ++ next ∷ []) w

      step-Finds :
          (next : String) (ws : List Walk)
          → length ws < limit
          → step next (state_of ws) ≡ some (state_of (take limit (ws ++ piece next)))
      step-Finds next ws room = elim (Bool-cases (contains next path)) [
        | inl met ↦ rw met (
            ap some (pushed ws (cycle (from_first next path ++ next ∷ [])))
            ∙ ap (λ l. some (state_of l))
                (sym (
                  take_all limit (ws ++ cycle (from_first next path ++ next ∷ []) ∷ []) (
                    omega
                      (arith, length-append ws (cycle (from_first next path ++ next ∷ []) ∷ []))))))
        | inr new ↦ rw new (deep next ws (omega arith))
      ]

      walk_nexts-Finds :
          (nexts : List String) (ws : List Walk)
          → length ws < limit
          → walk_nexts sources g max_depth
              (walk_wait_paths sources g max_depth fuel)
              path
              nexts
              (state_of ws)
            ≡ some (
                state_of
                  (take limit (ws ++ next_walks g max_depth (walks g max_depth fuel) path nexts)))
      unfolding walk_nexts
      walk_nexts-Finds [] ws room =
          ap (λ l. some (state_of l))
            (sym (take_all limit ws (omega arith)) ∙ ap (take limit) (sym (append-nil ws)))
      walk_nexts-Finds (next ∷ nexts) ws room =
          let rest = next_walks g max_depth (walks g max_depth fuel) path nexts in
          let ws' = take limit (ws ++ piece next) in
          let after = λ (w : Walked S).
            if is_full w
            then some w
            else walk_nexts sources g max_depth (walk_wait_paths sources g max_depth fuel) path
                nexts w in
          ap (λ o. bind_some o after) (step-Finds next ws room)
          ∙ elim (Bool-cases (leb limit (length ws'))) [
            | inl stop ↦ rw (full ws' ∙ stop) (
                ap (λ l. some (state_of l))
                  (sym (take_full limit ws (piece next) rest (leb→le limit (length ws') stop))))
            | inr go ↦ rw (full ws' ∙ go) (
                walk_nexts-Finds nexts ws' (leb→lt limit (length ws') go)
                ∙ ap (λ l. some (state_of l))
                    (take_more limit ws (piece next) rest (leb→lt limit (length ws') go)))
          ]

  -- The search on from a path, with fuel for the depth that is left.
  walk_wait_paths-Finds :
      (fuel : ℕ) (path : List String)
      → 0 < length path
      → length path ≤ max_depth
      → max_depth < fuel + length path
      → Finds (walk_wait_paths sources g max_depth fuel path) (walks g max_depth fuel path)
  unfolding walk_wait_paths walks
  walk_wait_paths-Finds zero path some_key short enough ws h = absurd (omega arith)
  walk_wait_paths-Finds (suc fuel) [] some_key short enough ws h = absurd (omega arith)
  walk_wait_paths-Finds (suc fuel) (key ∷ keys) some_key short enough ws h =
      let path = key ∷ keys in
      let limit = default_wait_chain_max_results in
      let found = walks g max_depth (suc fuel) path in
      elim (Bool-cases (leb limit (length ws))) [
        | inl stop ↦
            rw (full ws ∙ stop, walk_wait_paths)
              (ap (λ l. some (state_of l))
                (sym (
                  take-append_le limit ws found (leb→le limit (length ws) stop)
                  ∙ take_all limit ws h)))
        | inr go ↦ elim (Bool-cases (is_nil (nexts_of g path) || leb max_depth (length path))) [
          | inl leaf ↦
              rw (full ws ∙ go, walk_wait_paths, leaf, walks)
                (ap some (pushed ws (open_end path))
                  ∙ ap (λ l. some (state_of l))
                      (sym (
                        take_all limit (ws ++ open_end path ∷ []) (
                          omega (
                            arith,
                            length-append ws (open_end path ∷ []),
                            leb→lt limit (length ws) go,
                          )))))
          | inr inner ↦
              let below =
                leb→lt max_depth (length path)
                  (or_false (is_nil (nexts_of g path)) (leb max_depth (length path)) inner) in
              let longer = λ (next : String). length-append path (next ∷ []) in
              rw (full ws ∙ go, walk_wait_paths, inner, walks)
                (walk_nexts-Finds fuel path
                  (λ next.
                    walk_wait_paths-Finds fuel (path ++ next ∷ []) (omega (arith, longer next))
                      (omega (arith, longer next)) (omega (arith, longer next)))
                  (nexts_of g path) ws (leb→lt limit (length ws) go))
        ]
      ]

  walk_starts-Finds :
      0 < max_depth
      → (starts : List String)
      → Finds (walk_starts sources g max_depth starts) (all_walks g max_depth starts)
  unfolding walk_starts
  walk_starts-Finds deep [] ws h =
      ap (λ l. some (state_of l))
        (sym (take_all default_wait_chain_max_results ws h)
          ∙ ap (take default_wait_chain_max_results) (sym (append-nil ws)))
  walk_starts-Finds deep (start ∷ starts) ws h =
      let limit = default_wait_chain_max_results in
      let found = walks g max_depth max_depth (start ∷ []) in
      let rest = all_walks g max_depth starts in
      let ws' = take limit (ws ++ found) in
      elim (Bool-cases (leb limit (length ws))) [
        | inl stop ↦
            rw (full ws ∙ stop, walk_starts)
              (ap (λ l. some (state_of l))
                (sym (
                  take-append_le limit ws (found ++ rest) (leb→le limit (length ws) stop)
                  ∙ take_all limit ws h)))
        | inr go ↦
            rw (full ws ∙ go, walk_starts)
              (ap (λ o. bind_some o (walk_starts sources g max_depth starts))
                  (walk_wait_paths-Finds max_depth (start ∷ []) (omega arith) (omega arith)
                    (omega arith) ws h)
                ∙ walk_starts-Finds deep starts ws' (omega (arith, length-take limit (ws ++ found)))
                ∙ ap (λ l. some (state_of l)) (take-take limit ws found rest))
      ]

pub depth_of_pos : (max_depth : Option ℕ) → 0 < depth_of max_depth
depth_of_pos none = omega arith
depth_of_pos (some n) = omega arith

-- The search ends, and lists the first 200 walks, numbered from 1: depth first, from the start keys
-- in order.
pub wait_chains-eq-walks :
    {S : Type 0} (sources : BTreeMap FrameId S) (g : WaitGraph) (roots : Option (List String))
    (max_depth : Option ℕ)
    → wait_chains sources g roots max_depth
      ≡ some (
          render_from sources g (depth_of max_depth) 0 (
            take default_wait_chain_max_results
              (all_walks g (depth_of max_depth) (start_keys roots g))))
unfolding wait_chains
wait_chains-eq-walks {S} sources g roots max_depth = ap (Option.map (λ (w : Walked S). w.chains)) (
    walk_starts-Finds sources g (depth_of max_depth) (depth_of_pos max_depth) (start_keys roots g)
      [] (omega arith))
