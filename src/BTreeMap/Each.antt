-- ===== src/BTreeMap/Each.antt =====
-- What holds of every value of a map.
use mathlib.Core.Option
use mathlib.Core.Path.{subst}
use Prim.Native.Nat.{Ordering}
use peeps.Prelude.{
  sym, eqb_iff, All, ◌≡◌, refl, Bool, true, false, Option, none, some, [], ◌∷◌, arith, Ord, eqb,
  if◌then◌else◌,
}
use peeps.BTreeMap.{BTreeMap, get, insert, retain, remove, contains_key}
use peeps.BTreeMap.Laws.{get-insert, get-remove}
use peeps.BTreeMap.Values.{map_values, get-map_values}

module _ {ℓ κ} {K V : Type ℓ} ⦃o : Ord K⦄ (P : V → Type κ) where
  abbrev pub Each : BTreeMap K V → Type (ℓ ⊔ κ)
  Each m = (q : K) (v : V) → get q m ≡ some v → P v

  pub insert-Each : (k : K) (v : V) (m : BTreeMap K V) → P v → Each m → Each (insert k v m)
  insert-Each k v m new old q w h = cases (eqb q k) (rw (get-insert q k v m) at h)
    where
      cases : (b : Bool) → (if b then some v else get q m) ≡ some w → P w
      cases true e = subst P (cc) new
      cases false e = old q w e

  pub remove-Each : (k : K) (m : BTreeMap K V) → Each m → Each (remove k m)
  remove-Each k m old q w h = cases (eqb q k) (rw (get-remove q k m) at h)
    where
      cases : (b : Bool) → (if b then none else get q m) ≡ some w → P w
      cases true e = absurd (cc)
      cases false e = old q w e

module _ {ℓ κ μ} {K V W : Type ℓ} ⦃o : Ord K⦄ (P : V → Type κ) (Q : W → Type μ) where
  pub map_values-Each :
      (f : V → W) (m : BTreeMap K V)
      → ((v : V) → P v → Q (f v))
      → Each P m
      → Each Q (map_values f m)
  map_values-Each f m keep old q w h = cases (get q m) refl (rw (get-map_values f q m) at h)
    where
      cases : (r : Option V) → get q m ≡ r → Option.map f r ≡ some w → Q w
      cases none e d = absurd (cc)
      cases (some v) e d = subst Q (cc) (keep v (old q v e))

module _ {ℓ} {K V : Type ℓ} ⦃o : Ord K⦄ where
  -- Removing a key that is not there.
  pub remove-absent : (k : K) (m : BTreeMap K V) → contains_key k m ≡ false → remove k m ≡ m
  unfolding get remove retain
  remove-absent k [] h = refl
  remove-absent k ((j, v) ∷ m) h = ground (arith, o.cmp_iff k j, o.cmp_iff j k, remove-absent k m)

module _ {ℓ κ} {K V : Type ℓ} ⦃o : Ord K⦄ (P : K × V → Type κ) where
  pub get-All : (k : K) (v : V) (m : BTreeMap K V) → All P m → get k m ≡ some v → P (k, v)
  unfolding get
  get-All k v [] h there = absurd (cc)
  get-All k v ((j, w) ∷ m) (here, h) there = cases (eqb k j) refl there (get-All k v m h)
    where
      cases :
          (b : Bool)
          → eqb k j ≡ b
          → (if b then some w else get k m) ≡ some v
          → (get k m ≡ some v → P (k, v))
          → P (k, v)
      cases true e d rest =
          let same : k ≡ j = (eqb_iff k j).0 e in
          let value : w ≡ v = cc in
          let pair : (j, w) ≡ (k, v) = λ i. ((sym same) i, value i) in subst P pair here
      cases false e d rest = rest d

  pub insert-All : (k : K) (v : V) (m : BTreeMap K V) → P (k, v) → All P m → All P (insert k v m)
  unfolding insert
  insert-All k v [] new h = (new, tt)
  insert-All k v ((j, w) ∷ m) new (here, h) = cases (o.cmp k j) (insert-All k v m new h)
    where
      cases :
          (c : Ordering)
          → All P (insert k v m)
          → All P (elim c [
            | Ordering.lt ↦ (k, v) ∷ (j, w) ∷ m
            | Ordering.eq ↦ (k, v) ∷ m
            | Ordering.gt ↦ (j, w) ∷ insert k v m
          ])
      cases Ordering.lt rest = (new, (here, h))
      cases Ordering.eq rest = (new, h)
      cases Ordering.gt rest = (here, rest)
