-- ===== src/BTreeMap/Bulk.antt =====
-- Removing many keys one by one is one `retain`.
use peeps.Prelude.{
  ℕ, ◌≡◌, refl, sym, ap, ◌∙◌, Bool, true, false, List, [], ◌∷◌, arith, Ord, eqb, not, ◌&&◌, ◌||◌,
  if◌then◌else◌, All, All-mono, Bool-cases, inl, inr,
}
use peeps.Prelude
use peeps.BTreeMap.{BTreeMap, keys, retain, remove}
use peeps.BTreeMap.Laws.{retain-retain}

module _ {ℓ} {K : Type ℓ} ⦃o : Ord K⦄ where
  -- Whether a key is among some.
  abbrev pub contains : List K → K → Bool
  contains [] k = false
  contains (j ∷ ks) k = eqb k j || contains ks k

  contains_sound :
      (p : K → Bool) (k : K) (ks : List K) → contains (Prelude.retain p ks) k ≡ true → p k ≡ true
  contains_sound p k [] h = ground arith
  contains_sound p k (j ∷ ks) h = ground (arith, o.cmp_iff k j, contains_sound p k ks)

module _ {ℓ} {K V : Type ℓ} ⦃o : Ord K⦄ where
  abbrev pub remove_keys : List K → BTreeMap K V → BTreeMap K V
  remove_keys [] m = m
  remove_keys (k ∷ ks) m = remove_keys ks (remove k m)

  pub retain-congr :
      (p r : K → V → Bool) (m : BTreeMap K V)
      → All (λ e. p e.0 e.1 ≡ r e.0 e.1) m
      → retain p m ≡ retain r m
  unfolding retain
  retain-congr p r [] h = refl
  retain-congr p r ((j, v) ∷ m) h = ground (arith, retain-congr p r m h.1)

  All-of {κ} : (P : K × V → Type κ) (m : BTreeMap K V) → ((e : K × V) → P e) → All P m
  All-of P [] f = tt
  All-of P (e ∷ m) f = (f e, All-of P m f)

  retain-true : (m : BTreeMap K V) → retain (λ _ _. true) m ≡ m
  unfolding retain
  retain-true [] = refl
  retain-true (e ∷ m) = ap (◌∷◌ e) (retain-true m)

  remove_keys-eq-retain :
      (ks : List K) (m : BTreeMap K V) → remove_keys ks m ≡ retain (λ k _. not (contains ks k)) m
  unfolding remove
  remove_keys-eq-retain [] m = sym (retain-true m)
  remove_keys-eq-retain (k ∷ ks) m =
      remove_keys-eq-retain ks (remove k m)
      ∙ retain-retain (λ j _. not (contains ks j)) (λ j _. not (eqb j k)) m
      ∙ retain-congr _ _ m (All-of _ m λ e. ground arith)

  contains_complete :
      (p : K → Bool) (m : BTreeMap K V)
      → All (λ e. p e.0 ≡ true → contains (Prelude.retain p (keys m)) e.0 ≡ true) m
  contains_complete p [] = tt
  contains_complete p (e ∷ m) = (
    ground (arith, o.cmp_iff e.0 e.0),
    All-mono _ _ m (λ x h t. ground (arith, h t)) (contains_complete p m),
  )

  -- Removing, one by one, the keys that satisfy a predicate keeps the entries of all others.
  pub remove_keys_lem :
      (p : K → Bool) (m : BTreeMap K V)
      → remove_keys (Prelude.retain p (keys m)) m ≡ retain (λ k _. not (p k)) m
  remove_keys_lem p m =
      remove_keys-eq-retain (Prelude.retain p (keys m)) m
      ∙ retain-congr _ _ m (
          All-mono _ _ m (λ e h. ground (arith, h, contains_sound p e.0 (keys m)))
            (contains_complete p m))

  -- A filter applied twice.
  pub retain_twice : (p : K → V → Bool) (m : BTreeMap K V) → retain p (retain p m) ≡ retain p m
  retain_twice p m = retain-retain p p m ∙ retain-congr _ _ m (All-of _ m λ e. ground arith)
