-- ===== src/BTreeMap.antt =====
-- `std::collections::BTreeMap` (and `BTreeSet`, a map to `Unit`) as the runtime and the server use
-- it: an association list in key order, one entry for each key.
pub mod Laws
pub mod Bulk
pub mod Values
pub mod Each
pub mod Ascending
use Prim.Native.Nat.{Ordering}
use peeps.Prelude.{
  ℕ, Bool, true, false, Option, none, some, List, [], ◌∷◌, map, length, Ord, eqb, not, is_some,
  if◌then◌else◌,
}

abbrev pub BTreeMap {ℓ} : Type ℓ → Type ℓ → Type ℓ
BTreeMap K V = List (K × V)

abbrev pub keys {ℓ} : {K V : Type ℓ} → BTreeMap K V → List K
keys m = map (λ e. e.0) m

abbrev pub values {ℓ} : {K V : Type ℓ} → BTreeMap K V → List V
values m = map (λ e. e.1) m

module _ {ℓ} {K V : Type ℓ} ⦃o : Ord K⦄ where
  unfoldable pub get : K → BTreeMap K V → Option V
  get k [] = none
  get k ((j, v) ∷ m) = if eqb k j then some v else get k m

  unfoldable pub insert : K → V → BTreeMap K V → BTreeMap K V
  insert k v [] = (k, v) ∷ []
  insert k v ((j, w) ∷ m) =
      let rest = insert k v m in
      elim (o.cmp k j) [
        | Ordering.lt ↦ (k, v) ∷ (j, w) ∷ m
        | Ordering.eq ↦ (k, v) ∷ m
        | Ordering.gt ↦ (j, w) ∷ rest
      ]

  unfoldable pub retain : (K → V → Bool) → BTreeMap K V → BTreeMap K V
  retain p [] = []
  retain p ((j, v) ∷ m) = let rest = retain p m in if p j v then (j, v) ∷ rest else rest

  -- Keys are distinct, so dropping every entry with the key drops the one there is.
  unfoldable pub remove : K → BTreeMap K V → BTreeMap K V
  remove k m = retain (λ j _. not (eqb j k)) m

  abbrev pub contains_key : K → BTreeMap K V → Bool
  contains_key k m = is_some (get k m)
