-- ===== src/Prelude/Sorting.antt =====
-- `slice::sort_by`, `sort_unstable` and `Vec::dedup` by their results: the stable ascending order,
-- and no element that equals the one before it.
use Prim.Native.Nat.{Ordering}
use mathlib.Core.List.{List, [], ◌∷◌}
use peeps.Prelude.Tests.{if◌then◌else◌}
use peeps.Prelude.Keys.{Ord, eqb}

module _ {ℓ} {A : Type ℓ} (cmp : A → A → Ordering) where
  -- In front of the first larger element. `x` comes before what is in the list already.
  unfoldable pub insert_sorted : A → List A → List A
  insert_sorted x [] = x ∷ []
  insert_sorted x (y ∷ ys) =
      let rest = insert_sorted x ys in
      elim (cmp x y) [
        | Ordering.lt ↦ x ∷ y ∷ ys
        | Ordering.eq ↦ x ∷ y ∷ ys
        | Ordering.gt ↦ y ∷ rest
      ]

  unfoldable pub sort_by : List A → List A
  unfolding insert_sorted
  sort_by [] = []
  sort_by (x ∷ xs) = insert_sorted x (sort_by xs)

module _ {ℓ} {K : Type ℓ} ⦃o : Ord K⦄ where
  unfoldable pub dedup_after : K → List K → List K
  dedup_after last [] = []
  dedup_after last (x ∷ xs) =
      let kept = dedup_after x xs in
      let dropped = dedup_after last xs in if eqb x last then dropped else x ∷ kept

  unfoldable pub dedup : List K → List K
  unfolding dedup_after
  dedup [] = []
  dedup (x ∷ xs) = x ∷ dedup_after x xs
