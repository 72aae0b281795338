-- ===== src/Prelude/Keys.antt =====
-- Rust's `Ord`, as far as its maps use it: a comparison that answers `eq` for equal keys only.
use Prim.Native.Nat.{ℕ, compare, Ordering}
use Prim.Native.String.{String, compare as compare_string}
use text.Mathlib.TextEquality.{eq_iff}
use mathlib.Core.Path.{◌≡◌}
use mathlib.Core.Logic.{◌↔◌}
use mathlib.Core.Bool.{Bool, true, false}
use native.Mathlib.Omega.{arith}

abbrev pub is_eq : Ordering → Bool
is_eq Ordering.eq = true
is_eq Ordering.lt = false
is_eq Ordering.gt = false

pub record Ord {ℓ} (K : Type ℓ) : Type ℓ where
  pub cmp : K → K → Ordering
  pub cmp_iff : (a b : K) → (is_eq (cmp a b) ≡ true) ↔ (a ≡ b)

-- Rust's `==` on keys.
abbrev pub eqb {ℓ} : {K : Type ℓ} ⦃o : Ord K⦄ → K → K → Bool
eqb ⦃o⦄ a b = is_eq (o.cmp a b)

pub eqb_iff {ℓ} : {K : Type ℓ} ⦃o : Ord K⦄ (a b : K) → (eqb a b ≡ true) ↔ (a ≡ b)
eqb_iff ⦃o⦄ a b = o.cmp_iff a b

pub cmp_ℕ_iff : (a b : ℕ) → (is_eq (compare a b) ≡ true) ↔ (a ≡ b)
cmp_ℕ_iff a b = ground arith

instance abbrev pub nat_ord : Ord ℕ
nat_ord = record { cmp = compare; cmp_iff = cmp_ℕ_iff }

pub cmp_string_iff : (a b : String) → (is_eq (compare_string a b) ≡ true) ↔ (a ≡ b)
cmp_string_iff a b = ground (arith, eq_iff a b)

instance abbrev pub string_ord : Ord String
string_ord = record { cmp = compare_string; cmp_iff = cmp_string_iff }

-- Lexicographic order, as `derive(Ord)` and the tuples have it.
abbrev pub then_cmp : Ordering → Ordering → Ordering
then_cmp Ordering.eq o = o
then_cmp Ordering.lt o = Ordering.lt
then_cmp Ordering.gt o = Ordering.gt

module _ {ℓ} {A B : Type ℓ} ⦃oa : Ord A⦄ ⦃ob : Ord B⦄ where
  abbrev pub cmp_pair : A × B → A × B → Ordering
  cmp_pair p q = then_cmp (oa.cmp p.0 q.0) (ob.cmp p.1 q.1)

  pub cmp_pair_iff : (p q : A × B) → (is_eq (cmp_pair p q) ≡ true) ↔ (p ≡ q)
  cmp_pair_iff p q = ground (arith, oa.cmp_iff p.0 q.0, ob.cmp_iff p.1 q.1)

instance abbrev pub pair_ord {ℓ} : {A B : Type ℓ} ⦃oa : Ord A⦄ ⦃ob : Ord B⦄ → Ord (A × B)
pair_ord ⦃oa⦄ ⦃ob⦄ = record { cmp = cmp_pair; cmp_iff = cmp_pair_iff }
