-- ===== src/Prelude/Fallible.antt =====
-- Results with an error, and computations that may panic.
use mathlib.Core.Path.{◌≡◌, subst, refl}
use mathlib.Core.Bool.{Bool, true, false}

pub data Result {ℓ κ} (E : Type κ) (A : Type ℓ) : Type (ℓ ⊔ κ) where
  ok : A → Result E A
  err : E → Result E A

infixl 5 ◌>>=◌ ◌>>◌
abbrev pub ◌>>=◌ {ℓ κ μ} :
    {E : Type κ} {A : Type ℓ} {B : Type μ} → Result E A → (A → Result E B) → Result E B
ok a >>= f = f a
err e >>= f = err e

abbrev pub ◌>>◌ {ℓ κ} : {E : Type κ} {B : Type ℓ} → Result E (Unit {0}) → Result E B → Result E B
m >> k = m >>= λ _. k

-- `Result::map_err`.
abbrev pub map_err {ℓ κ μ} :
    {E : Type κ} {F : Type μ} {A : Type ℓ} → (E → F) → Result E A → Result F A
map_err f (ok a) = ok a
map_err f (err e) = err (f e)

module _ {ℓ κ μ} {E : Type κ} {A : Type ℓ} (P : A → Type μ) where
  -- The value satisfies `P`, if there is one.
  abbrev pub Ensures : Result E A → Type μ
  Ensures (ok a) = P a
  Ensures (err e) = Unit

  pub Ensures-ok : (r : Result E A) (a : A) → Ensures r → r ≡ ok a → P a
  Ensures-ok (ok b) a h e = subst P (cc) h
  Ensures-ok (err x) a h e = absurd (cc)

module _ {ℓ κ μ ν} {E : Type κ} {A : Type ℓ} {B : Type ν} where
  pub Ensures-bind :
      (P : A → Type μ) (Q : B → Type μ) (m : Result E A) (f : A → Result E B)
      → Ensures P m
      → ((a : A) → P a → Ensures Q (f a))
      → Ensures Q (m >>= f)
  Ensures-bind P Q (ok a) f h k = k a h
  Ensures-bind P Q (err e) f h k = tt

-- `Result::map`.
abbrev pub map_ok {ℓ κ ν} :
    {E : Type κ} {A : Type ℓ} {B : Type ν} → (A → B) → Result E A → Result E B
map_ok f (ok a) = ok (f a)
map_ok f (err e) = err e

pub Ensures-mono {ℓ κ μ ν} :
    {E : Type κ} {A : Type ℓ} (P : A → Type μ) (Q : A → Type ν) (r : Result E A)
    → Ensures P r
    → ((a : A) → P a → Q a)
    → Ensures Q r
Ensures-mono P Q (ok a) h f = f a h
Ensures-mono P Q (err e) h f = tt

pub map_ok-bind {ℓ} :
    {E A B C : Type ℓ} (r : Result E A) (f : A → Result E B) (g : B → C)
    → map_ok g (r >>= f) ≡ (r >>= λ a. map_ok g (f a))
map_ok-bind (ok a) f g = refl
map_ok-bind (err e) f g = refl

abbrev pub is_ok {ℓ κ} : {E : Type κ} {A : Type ℓ} → Result E A → Bool
is_ok (ok a) = true
is_ok (err e) = false

-- There is a value, and it satisfies `P`.
abbrev pub Total {ℓ κ μ} : {E : Type κ} {A : Type ℓ} → (A → Type μ) → Result E A → Type (ℓ ⊔ κ ⊔ μ)
Total {A = A} P r = (a : A) × (r ≡ ok a) × P a

pub Total-intro {ℓ κ μ} :
    {E : Type κ} {A : Type ℓ} (P : A → Type μ) (r : Result E A)
    → is_ok r ≡ true
    → Ensures P r
    → Total P r
Total-intro P (ok a) h e = (a, refl, e)
Total-intro P (err x) h e = absurd (cc)

-- A computation that always returns after another.
pub is_ok-bind {ℓ κ ν} :
    {E : Type κ} {A : Type ℓ} {B : Type ν} (r : Result E A) (f : A → B)
    → is_ok (r >>= λ a. ok (f a)) ≡ is_ok r
is_ok-bind (ok a) f = refl
is_ok-bind (err e) f = refl
