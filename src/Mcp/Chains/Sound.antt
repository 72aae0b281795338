-- ===== src/Mcp/Chains/Sound.antt =====
-- The walks are what their names say.
use mathlib.Core.Path.{subst}
use peeps.Prelude.{
  ℕ, zero, suc, ◌≤◌, ◌<◌, ◌≡◌, refl, sym, ap, Bool, true, false, Option, some, List, [], ◌∷◌, ◌++◌,
  String, string_ord, eqb, eqb_iff, leb, leb→le, leb→lt, ◌||◌, contains, Distinct, Distinct-snoc,
  Within, Within-self, length, length-append, take, arith, Bool-cases, inl, inr, ◌⊎◌, All,
  All-append,
}
use peeps.BTreeMap.{BTreeMap, get}
use peeps.Trace.{FrameId}
use peeps.Mcp.Frames.{is_nil}
use peeps.Mcp.Graph.{WaitGraph, or_nil}
use peeps.Mcp.Chains.{start_keys, default_wait_chain_max_results, last_of, from_first}
use peeps.Mcp.Chains.Walks.{wait_chains, depth_of, nexts_of, bind_some}
use peeps.Mcp.Chains.Listed.{Walk, open_end, cycle, walks, next_walks, all_walks, render_from}
use peeps.Mcp.Chains.Found.{or_false, wait_chains-eq-walks, depth_of_pos}

module _ (g : WaitGraph) where
  -- Whether one node waits for another.
  abbrev pub waits_for : String → String → Bool
  waits_for a b = contains b (or_nil (get a g.adjacency))

  -- Each node of a path waits for the next.
  abbrev pub Linked : List String → Type 0
  Linked [] = Unit
  Linked (a ∷ []) = Unit
  Linked (a ∷ b ∷ path) = (waits_for a b ≡ true) × Linked (b ∷ path)

  Linked-snoc :
      (path : List String) (b : String)
      → Linked path
      → contains b (nexts_of g path) ≡ true
      → Linked (path ++ b ∷ [])
  Linked-snoc [] b h e = tt
  Linked-snoc (a ∷ []) b h e = (e, tt)
  Linked-snoc (a ∷ c ∷ path) b (h, hs) e = (h, Linked-snoc (c ∷ path) b hs e)

  Linked-from_first :
      (next : String) (path : List String) → Linked path → Linked (from_first next path)
  Linked-from_first next [] h = tt
  Linked-from_first next (a ∷ []) h = elim (Bool-cases (eqb a next)) [
    | inl same ↦ rw same tt
    | inr other ↦ rw other tt
  ]
  Linked-from_first next (a ∷ c ∷ path) h = elim (Bool-cases (eqb a next)) [
    | inl same ↦ rw same h
    | inr other ↦ rw other (Linked-from_first next (c ∷ path) h.1)
  ]

last_of-from_first :
    (next : String) (path : List String)
    → contains next path ≡ true
    → last_of (from_first next path) ≡ last_of path
last_of-from_first next [] h = refl
last_of-from_first next (a ∷ []) h = ground arith
last_of-from_first next (a ∷ c ∷ path) h = elim (Bool-cases (eqb a next)) [
  | inl same ↦ rw same refl
  | inr other ↦ rw other (last_of-from_first next (c ∷ path) (ground arith))
]

Distinct-from_first :
    (next : String) (path : List String) → Distinct path → Distinct (from_first next path)
Distinct-from_first next [] h = tt
Distinct-from_first next (a ∷ path) h = elim (Bool-cases (eqb a next)) [
  | inl same ↦ rw same h
  | inr other ↦ rw other (Distinct-from_first next path h.1)
]

-- The path from the node on starts with it.
from_first-head :
    (next : String) (path : List String)
    → contains next path ≡ true
    → (rest : List String) × (from_first next path ≡ next ∷ rest)
from_first-head next [] h = absurd (cc)
from_first-head next (a ∷ path) h = elim (Bool-cases (eqb a next)) [
  | inl same ↦ (path, rw same (ap (λ k. k ∷ path) ((eqb_iff a next).0 same)))
  | inr other ↦ rw other (from_first-head next path (ground arith))
]

module _ (g : WaitGraph) (max_depth : ℕ) where
  -- A walk with an open end meets no node twice, and ends where nothing is waited for or at the
  -- depth; a cycle goes from a node to itself and meets no other node twice.
  abbrev pub IsWalk : Walk → Type 0
  IsWalk (open_end path) =
      Linked g path × Distinct path × ((nexts_of g path ≡ []) ⊎ (length path ≡ max_depth))
  IsWalk (cycle path) =
      Linked g path
      × ((next : String) × (rest : List String) × (path ≡ next ∷ rest ++ next ∷ [])
          × Distinct (next ∷ rest))

  cycle-IsWalk :
      (path : List String) (next : String)
      → Linked g path
      → Distinct path
      → contains next (nexts_of g path) ≡ true
      → contains next path ≡ true
      → IsWalk (cycle (from_first next path ++ next ∷ []))
  cycle-IsWalk path next linked apart waited met =
      let (rest, e) = from_first-head next path met in
      (
        Linked-snoc g (from_first next path) next (Linked-from_first g next path linked) (
            subst
              (λ (l : Option String).
                contains next (or_nil (bind_some l (λ current. get current g.adjacency))) ≡ true)
              (sym (last_of-from_first next path met)) waited),
        (
          next,
          rest,
          ap (λ p. p ++ next ∷ []) e,
          subst Distinct e (Distinct-from_first next path apart),
        ),
      )

  next_walks-IsWalk :
      (deeper : List String → List Walk) (path : List String)
      → Linked g path
      → Distinct path
      → ((next : String)
          → contains next (nexts_of g path) ≡ true
          → contains next path ≡ false
          → All IsWalk (deeper (path ++ next ∷ [])))
      → (nexts : List String) → Within (nexts_of g path) nexts
      → All IsWalk (next_walks g max_depth deeper path nexts)
  next_walks-IsWalk deeper path linked apart deep [] w = tt
  next_walks-IsWalk deeper path linked apart deep (next ∷ nexts) (waited, w) =
      let rest = next_walks-IsWalk deeper path linked apart deep nexts w in
      elim (Bool-cases (contains next path)) [
        | inl met ↦ rw met (cycle-IsWalk path next linked apart waited met, rest)
        | inr new ↦
            rw new (All-append IsWalk (deeper (path ++ next ∷ [])) _ (deep next waited new) rest)
      ]

  nil_or : (xs : List String) (b : Bool) → (is_nil xs || b) ≡ true → (xs ≡ []) ⊎ (b ≡ true)
  nil_or [] b h = inl refl
  nil_or (x ∷ xs) b h = inr h

  walks-IsWalk :
      (fuel : ℕ) (path : List String)
      → length path ≤ max_depth
      → Linked g path
      → Distinct path
      → All IsWalk (walks g max_depth fuel path)
  unfolding walks
  walks-IsWalk zero path short linked apart = tt
  walks-IsWalk (suc fuel) path short linked apart =
      elim (Bool-cases (is_nil (nexts_of g path) || leb max_depth (length path))) [
        | inl leaf ↦ rw (leaf, walks) ((linked, apart, ends (nil_or (nexts_of g path) _ leaf)), tt)
        | inr inner ↦
            let below =
              leb→lt max_depth (length path)
                (or_false (is_nil (nexts_of g path)) (leb max_depth (length path)) inner) in
            rw (inner, walks)
              (next_walks-IsWalk (walks g max_depth fuel) path linked apart
                (λ next waited new.
                  walks-IsWalk fuel (path ++ next ∷ [])
                    (omega (arith, length-append path (next ∷ [])))
                    (Linked-snoc g path next linked waited) (Distinct-snoc next path apart new))
                (nexts_of g path) (Within-self (nexts_of g path)))
      ]
    where
      ends :
          (nexts_of g path ≡ []) ⊎ (leb max_depth (length path) ≡ true)
          → (nexts_of g path ≡ []) ⊎ (length path ≡ max_depth)
      ends (inl e) = inl e
      ends (inr e) = inr (omega (arith, leb→le max_depth (length path) e))

  -- Every walk from the start keys is one.
  pub all_walks-IsWalk :
      0 < max_depth → (starts : List String) → All IsWalk (all_walks g max_depth starts)
  all_walks-IsWalk deep [] = tt
  all_walks-IsWalk deep (start ∷ starts) =
      All-append IsWalk (walks g max_depth max_depth (start ∷ [])) _
        (walks-IsWalk max_depth (start ∷ []) (omega arith) tt (refl, tt))
        (all_walks-IsWalk deep starts)

All-take : {A : Type 0} (P : A → Type 0) (n : ℕ) (xs : List A) → All P xs → All P (take n xs)
All-take P zero xs h = tt
All-take P (suc n) [] h = tt
All-take P (suc n) (x ∷ xs) (h, hs) = (h, All-take P n xs hs)

-- The search ends. It lists, numbered from 1, the first 200 of all the walks from the start keys,
-- depth first. Each node of a walk waits for the next. A walk that is no cycle meets no node twice,
-- and ends at a node that waits for nothing or at the depth; a cycle leads from a node back to it,
-- and meets no other node twice.
pub wait_chains-AreWalks :
    {S : Type 0} (sources : BTreeMap FrameId S) (g : WaitGraph) (roots : Option (List String))
    (max_depth : Option ℕ)
    → let depth = depth_of max_depth in
      let listed = take default_wait_chain_max_results (all_walks g depth (start_keys roots g)) in
      (wait_chains sources g roots max_depth ≡ some (render_from sources g depth 0 listed))
      × All (IsWalk g depth) listed
wait_chains-AreWalks sources g roots max_depth = (
  wait_chains-eq-walks sources g roots max_depth,
  All-take (IsWalk g (depth_of max_depth)) default_wait_chain_max_results _
      (all_walks-IsWalk g (depth_of max_depth) (depth_of_pos max_depth) (start_keys roots g)),
)
