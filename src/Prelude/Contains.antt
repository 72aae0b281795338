-- ===== src/Prelude/Contains.antt =====
-- `contains` of slices and vectors, and how it goes through appending, sorting and `dedup`.
use Prim.Native.Nat.{Ordering}
use mathlib.Core.Path.{◌≡◌, refl, ◌∙◌, ap}
use mathlib.Core.Bool.{Bool, true, false, ◌||◌}
use mathlib.Core.List.{List, [], ◌∷◌, ◌++◌}
use native.Mathlib.Omega.{arith}
use peeps.Prelude.Keys.{Ord, eqb, eqb_iff}
use peeps.Prelude.Lists.{All, All-mono}
use peeps.Prelude.Sorting.{insert_sorted, sort_by, dedup_after, dedup}

module _ {ℓ} {K : Type ℓ} ⦃o : Ord K⦄ where
  abbrev pub contains : K → List K → Bool
  contains k [] = false
  contains k (j ∷ js) = eqb j k || contains k js

  pub contains-append :
      (k : K) (xs ys : List K) → contains k (xs ++ ys) ≡ (contains k xs || contains k ys)
  contains-append k [] ys = refl
  contains-append k (x ∷ xs) ys = ground (arith, contains-append k xs ys)

  contains-insert_sorted :
      (cmp : K → K → Ordering) (k x : K) (xs : List K)
      → contains k (insert_sorted cmp x xs) ≡ (eqb x k || contains k xs)
  unfolding insert_sorted
  contains-insert_sorted cmp k x [] = refl
  contains-insert_sorted cmp k x (y ∷ ys) = ground (arith, contains-insert_sorted cmp k x ys)

  pub contains-sort_by :
      (cmp : K → K → Ordering) (k : K) (xs : List K) → contains k (sort_by cmp xs) ≡ contains k xs
  unfolding sort_by
  contains-sort_by cmp k [] = refl
  contains-sort_by cmp k (x ∷ xs) =
      contains-insert_sorted cmp k x (sort_by cmp xs)
      ∙ ap (◌||◌ (eqb x k)) (contains-sort_by cmp k xs)

  contains-dedup_after :
      (k last : K) (xs : List K)
      → (eqb last k || contains k (dedup_after last xs)) ≡ (eqb last k || contains k xs)
  unfolding dedup_after
  contains-dedup_after k last [] = refl
  contains-dedup_after k last (x ∷ xs) =
      ground (arith, eqb_iff x last, contains-dedup_after k x xs, contains-dedup_after k last xs)

  pub contains-dedup : (k : K) (xs : List K) → contains k (dedup xs) ≡ contains k xs
  unfolding dedup
  contains-dedup k [] = refl
  contains-dedup k (x ∷ xs) = contains-dedup_after k x xs

  -- No element twice.
  abbrev pub Distinct : List K → Type ℓ
  Distinct [] = Unit
  Distinct (x ∷ xs) = (contains x xs ≡ false) × Distinct xs

  pub Distinct-snoc :
      (x : K) (xs : List K) → Distinct xs → contains x xs ≡ false → Distinct (xs ++ x ∷ [])
  Distinct-snoc x [] d h = (refl, tt)
  Distinct-snoc x (y ∷ ys) (a, d) h = (
    ground (arith, contains-append y ys (x ∷ []), eqb_iff x y, eqb_iff y x),
    Distinct-snoc x ys d (ground arith),
  )

  -- Every element of a list is in another.
  abbrev pub Within : List K → List K → Type 0
  Within ids = All (λ (i : K). contains i ids ≡ true)

  pub Within-cons : (x : K) (ids xs : List K) → Within ids xs → Within (x ∷ ids) xs
  Within-cons x ids xs =
      All-mono (λ i. contains i ids ≡ true) (λ i. contains i (x ∷ ids) ≡ true) xs
        (λ i h. ground arith)

  pub Within-self : (ids : List K) → Within ids ids
  Within-self [] = tt
  Within-self (x ∷ xs) = (ground (arith, eqb_iff x x), Within-cons x xs xs (Within-self xs))
