-- ===== src/BTreeMap/Laws.antt =====
-- The map laws, in the form `get q (op m) ≡ if … then … else get q m`.
use peeps.Prelude.{
  ◌≤◌, ◌≡◌, refl, Bool, none, some, [], ◌∷◌, arith, length, Ord, eqb, ◌&&◌, if◌then◌else◌,
}
use peeps.BTreeMap.{BTreeMap, get, insert, retain, remove}

module _ {ℓ} {K V : Type ℓ} ⦃o : Ord K⦄ where
  pub get-insert :
      (q k : K) (v : V) (m : BTreeMap K V)
      → get q (insert k v m) ≡ (if eqb q k then some v else get q m)
  unfolding get insert
  get-insert q k v [] = refl
  get-insert q k v ((j, w) ∷ m) =
      ground (arith, o.cmp_iff q k, o.cmp_iff q j, o.cmp_iff k j, get-insert q k v m)

  pub get-remove :
      (q k : K) (m : BTreeMap K V) → get q (remove k m) ≡ (if eqb q k then none else get q m)
  unfolding get remove retain
  get-remove q k [] = ground arith
  get-remove q k ((j, w) ∷ m) =
      ground (arith, o.cmp_iff q k, o.cmp_iff q j, o.cmp_iff j k, get-remove q k m)

  pub retain-retain :
      (p r : K → V → Bool) (m : BTreeMap K V)
      → retain p (retain r m) ≡ retain (λ k v. p k v && r k v) m
  unfolding retain
  retain-retain p r [] = refl
  retain-retain p r ((j, w) ∷ m) = ground (arith, retain-retain p r m)

  pub length-remove-le : (k : K) (m : BTreeMap K V) → length (remove k m) ≤ length m
  unfolding remove retain
  length-remove-le k [] = omega arith
  length-remove-le k ((j, w) ∷ m) = ground (arith, length-remove-le k m)
