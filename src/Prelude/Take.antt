-- ===== src/Prelude/Take.antt =====
-- The first elements of a list that is put together.
use Prim.Native.Nat.{ℕ, zero, suc, ◌≤◌, ◌<◌}
use mathlib.Core.Path.{◌≡◌, refl, sym, ap, ◌∙◌}
use mathlib.Core.List.{List, [], ◌∷◌, ◌++◌, append_assoc}
use native.Mathlib.Omega.{arith}
use peeps.Prelude.Tests.{leb, leb→le, leb→lt, Bool-cases}
use mathlib.Core.Logic.{inl, inr}
use peeps.Prelude.Lists.{length, take, length-take}

module _ {ℓ} {A : Type ℓ} where
  pub take-append_le : (n : ℕ) (xs ys : List A) → n ≤ length xs → take n (xs ++ ys) ≡ take n xs
  take-append_le zero xs ys h = refl
  take-append_le (suc n) [] ys h = absurd (omega arith)
  take-append_le (suc n) (x ∷ xs) ys h = ap (◌∷◌ x) (take-append_le n xs ys (omega arith))

  pub take_all : (n : ℕ) (xs : List A) → length xs ≤ n → take n xs ≡ xs
  take_all zero [] h = refl
  take_all zero (x ∷ xs) h = absurd (omega arith)
  take_all (suc n) [] h = refl
  take_all (suc n) (x ∷ xs) h = ap (◌∷◌ x) (take_all n xs (omega arith))

  -- The first `n` of three lists, when those of two are known.
  pub take_full :
      (n : ℕ) (xs ys zs : List A)
      → n ≤ length (take n (xs ++ ys))
      → take n (xs ++ (ys ++ zs)) ≡ take n (xs ++ ys)
  take_full n xs ys zs h =
      ap (take n) (sym (append_assoc xs ys zs))
      ∙ take-append_le n (xs ++ ys) zs (omega (arith, length-take n (xs ++ ys)))

  pub take_more :
      (n : ℕ) (xs ys zs : List A)
      → length (take n (xs ++ ys)) < n
      → take n (take n (xs ++ ys) ++ zs) ≡ take n (xs ++ (ys ++ zs))
  take_more n xs ys zs h =
      ap (λ l. take n (l ++ zs)) (take_all n (xs ++ ys) (omega (arith, length-take n (xs ++ ys))))
      ∙ ap (take n) (append_assoc xs ys zs)

  pub take-take :
      (n : ℕ) (xs ys zs : List A) → take n (take n (xs ++ ys) ++ zs) ≡ take n (xs ++ (ys ++ zs))
  take-take n xs ys zs =
      let short = length-take n (xs ++ ys) in
      elim (Bool-cases (leb n (length (take n (xs ++ ys))))) [
        | inl stop ↦
            let enough = leb→le n (length (take n (xs ++ ys))) stop in
            take-append_le n (take n (xs ++ ys)) zs enough
            ∙ take_all n (take n (xs ++ ys)) (omega arith)
            ∙ sym (take_full n xs ys zs enough)
        | inr go ↦ take_more n xs ys zs (leb→lt n (length (take n (xs ++ ys))) go)
      ]
