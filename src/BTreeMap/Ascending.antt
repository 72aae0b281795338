-- ===== src/BTreeMap/Ascending.antt =====
-- Maps with numbers as keys, in ascending order: the representation invariant of `BTreeMap`.
use Prim.Native.Nat.{compare, Ordering}
use peeps.Prelude.{
  ℕ, ◌<◌, ◌≡◌, refl, Bool, true, false, Option, none, some, [], ◌∷◌, arith, All, All-mono,
  if◌then◌else◌, nat_ord,
}
use peeps.BTreeMap.{BTreeMap, get, insert, retain, remove}
use peeps.BTreeMap.Values.{filter_map_values, cons_some}

module _ {V : Type 0} where
  -- Every key is above a number.
  abbrev pub Above : ℕ → BTreeMap ℕ V → Type 0
  Above k = All (λ e. k < e.0)

  abbrev pub Ascending : BTreeMap ℕ V → Type 0
  Ascending [] = Unit
  Ascending ((k, v) ∷ m) = Above k m × Ascending m

  Above-mono : (j k : ℕ) (m : BTreeMap ℕ V) → j < k → Above k m → Above j m
  Above-mono j k m lt h = All-mono _ _ m (λ e p. omega arith) h

  pub get-Above : (k : ℕ) (m : BTreeMap ℕ V) → Above k m → get k m ≡ none
  unfolding get
  get-Above k [] h = refl
  get-Above k ((j, v) ∷ m) h = ground (arith, get-Above k m h.1)

  insert-Above : (k j : ℕ) (v : V) (m : BTreeMap ℕ V) → k < j → Above k m → Above k (insert j v m)
  unfolding insert
  insert-Above k j v [] lt h = (lt, tt)
  insert-Above k j v ((i, w) ∷ m) lt h =
      elim (compare j i)
        as (λ b. Above k (elim b [
          | Ordering.lt ↦ (j, v) ∷ (i, w) ∷ m
          | Ordering.eq ↦ (j, v) ∷ m
          | Ordering.gt ↦ (i, w) ∷ insert j v m
        ])) [
          | Ordering.lt ↦ (lt, h)
          | Ordering.eq ↦ (lt, h.1)
          | Ordering.gt ↦ (h.0, insert-Above k j v m lt h.1)
        ]

  pub retain-Above :
      (k : ℕ) (p : ℕ → V → Bool) (m : BTreeMap ℕ V) → Above k m → Above k (retain p m)
  unfolding retain
  retain-Above k p [] h = tt
  retain-Above k p ((j, v) ∷ m) h =
      elim (p j v) as (λ b. Above k (if b then (j, v) ∷ retain p m else retain p m)) [
        | true ↦ (h.0, retain-Above k p m h.1)
        | false ↦ retain-Above k p m h.1
      ]

  pub retain-Ascending :
      (p : ℕ → V → Bool) (m : BTreeMap ℕ V) → Ascending m → Ascending (retain p m)
  unfolding retain
  retain-Ascending p [] h = tt
  retain-Ascending p ((j, v) ∷ m) h =
      elim (p j v) as (λ b. Ascending (if b then (j, v) ∷ retain p m else retain p m)) [
        | true ↦ (retain-Above j p m h.0, retain-Ascending p m h.1)
        | false ↦ retain-Ascending p m h.1
      ]

  pub remove-Ascending : (k : ℕ) (m : BTreeMap ℕ V) → Ascending m → Ascending (remove k m)
  unfolding remove
  remove-Ascending k m h = retain-Ascending _ m h

  pub insert-Ascending : (k : ℕ) (v : V) (m : BTreeMap ℕ V) → Ascending m → Ascending (insert k v m)
  unfolding insert
  insert-Ascending k v [] h = (tt, tt)
  insert-Ascending k v ((i, w) ∷ m) h =
      cases (compare k i) (insert-Ascending k v m h.1) (ground arith) (ground arith) (ground arith)
    where
      cases :
          (b : Ordering)
          → Ascending (insert k v m)
          → (b ≡ Ordering.lt → k < i)
          → (b ≡ Ordering.eq → k ≡ i)
          → (b ≡ Ordering.gt → i < k)
          → Ascending (elim b [
            | Ordering.lt ↦ (k, v) ∷ (i, w) ∷ m
            | Ordering.eq ↦ (k, v) ∷ m
            | Ordering.gt ↦ (i, w) ∷ insert k v m
          ])
      cases Ordering.lt rest lt eq gt = ((lt refl, Above-mono k i m (lt refl) h.0), h)
      cases Ordering.eq rest lt eq gt = (rw (eq refl) h.0, h.1)
      cases Ordering.gt rest lt eq gt = (insert-Above i k v m (gt refl) h.0, rest)

module _ {V W : Type 0} where
  filter_map_values-Above :
      (k : ℕ) (f : V → Option W) (m : BTreeMap ℕ V) → Above k m → Above k (filter_map_values f m)
  unfolding filter_map_values
  filter_map_values-Above k f [] h = tt
  filter_map_values-Above k f ((j, v) ∷ m) h =
      elim (f v) as (λ r. Above k (cons_some j r (filter_map_values f m))) [
        | none ↦ filter_map_values-Above k f m h.1
        | some w ↦ (h.0, filter_map_values-Above k f m h.1)
      ]

  abbrev pub and_then : (V → Option W) → Option V → Option W
  and_then f none = none
  and_then f (some v) = f v

  pub get-filter_map_values :
      (f : V → Option W) (q : ℕ) (m : BTreeMap ℕ V)
      → Ascending m
      → get q (filter_map_values f m) ≡ and_then f (get q m)
  unfolding get filter_map_values
  get-filter_map_values f q [] h = refl
  get-filter_map_values f q ((k, v) ∷ m) h = ground (
    arith,
    get-filter_map_values f q m h.1,
    get-Above k (filter_map_values f m) (filter_map_values-Above k f m h.0),
  )
