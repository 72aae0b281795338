-- ===== src/Prelude/Int.antt =====
-- Signed machine integers: `negsuc n` is -(n + 1).
use Prim.Native.Nat.{ℕ, zero, suc, ◌+◌, ◌^◌, ◌-◌, compare, Ordering}
use mathlib.Core.Path.{◌≡◌}
use mathlib.Core.Logic.{◌↔◌}
use mathlib.Core.Bool.{true}
use native.Mathlib.Omega.{arith}
use peeps.Prelude.Tests.{◌==◌, if◌then◌else◌}
use peeps.Prelude.Keys.{Ord, is_eq}

pub data ℤ : Type 0 where
  pos : ℕ → ℤ
  negsuc : ℕ → ℤ

abbrev pub cmp_ℤ : ℤ → ℤ → Ordering
cmp_ℤ (pos m) (pos n) = compare m n
cmp_ℤ (pos m) (negsuc n) = Ordering.gt
cmp_ℤ (negsuc m) (pos n) = Ordering.lt
cmp_ℤ (negsuc m) (negsuc n) = compare n m

pub cmp_ℤ_iff : (a b : ℤ) → (is_eq (cmp_ℤ a b) ≡ true) ↔ (a ≡ b)
cmp_ℤ_iff (pos m) (pos n) = ground arith
cmp_ℤ_iff (pos m) (negsuc n) = ground arith
cmp_ℤ_iff (negsuc m) (pos n) = ground arith
cmp_ℤ_iff (negsuc m) (negsuc n) = ground arith

instance abbrev pub int_ord : Ord ℤ
int_ord = record { cmp = cmp_ℤ; cmp_iff = cmp_ℤ_iff }

-- `n + 1` on an `i64`, which wraps around in a release build.
abbrev pub succ_i64 : ℤ → ℤ
succ_i64 (pos n) = if n == 2 ^ 63 - 1 then negsuc (2 ^ 63 - 1) else pos (n + 1)
succ_i64 (negsuc zero) = pos 0
succ_i64 (negsuc (suc k)) = negsuc k
