-- ===== src/BTreeMap/Values.antt =====
-- `values_mut` and `iter().filter_map(..).collect()`, which keep the keys.
use mathlib.Core.Option
use peeps.Prelude.{◌≡◌, refl, Option, none, some, [], ◌∷◌, arith, Ord}
use peeps.BTreeMap.{BTreeMap, get}

module _ {ℓ} {K W : Type ℓ} where
  abbrev pub cons_some : K → Option W → BTreeMap K W → BTreeMap K W
  cons_some k none m = m
  cons_some k (some w) m = (k, w) ∷ m

module _ {ℓ} {K V W : Type ℓ} where
  -- Every value replaced.
  unfoldable pub map_values : (V → W) → BTreeMap K V → BTreeMap K W
  map_values f [] = []
  map_values f ((k, v) ∷ m) = (k, f v) ∷ map_values f m

  -- The entries whose value gives a result.
  unfoldable pub filter_map_values : (V → Option W) → BTreeMap K V → BTreeMap K W
  filter_map_values f [] = []
  filter_map_values f ((k, v) ∷ m) = cons_some k (f v) (filter_map_values f m)

module _ {ℓ} {K V W : Type ℓ} ⦃o : Ord K⦄ where
  pub get-map_values :
      (f : V → W) (q : K) (m : BTreeMap K V) → get q (map_values f m) ≡ Option.map f (get q m)
  unfolding get map_values
  get-map_values f q [] = refl
  get-map_values f q ((k, v) ∷ m) = ground (arith, get-map_values f q m)
