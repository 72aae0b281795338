-- ===== src/Prelude/Bits.antt =====
-- Machine words: ranges, saturating addition, and `|` of fields that share no bit.
use Prim.Native.Nat.{
  ℕ, zero, suc, ◌+◌, ◌-◌, ◌*◌, ◌/◌, ◌%◌, ◌^◌, ◌≤◌, ◌<◌, min, max, bit_or, digits, bit_or-bitwise,
  bit_and, bit_and-bitwise,
}
use mathlib.Core.Path.{◌≡◌, refl, ap, sym, ◌∙◌}
use native.Mathlib.Nat.{pow-suc}
use native.Mathlib.Omega.{arith}

abbrev pub u32_max : ℕ
u32_max = 2 ^ 32 - 1

abbrev pub u64_max : ℕ
u64_max = 2 ^ 64 - 1

abbrev pub i64_max : ℕ
i64_max = 2 ^ 63 - 1

-- `u64::saturating_add`.
abbrev pub saturating_add : ℕ → ℕ → ℕ
saturating_add a b = min (a + b) u64_max

-- What the bitwise operations have in common: `digits` reads two numbers digit by digit, on fuel.
module _ (z : ℕ → ℕ) (f : ℕ → ℕ → ℕ) where
  -- One unit of fuel more than the first number needs.
  digits_more : (n a b : ℕ) → a ≤ n → digits z f (suc n) a b ≡ digits z f n a b
  digits_more n zero b p = digits_none n b
    where
      digits_none : (n b : ℕ) → digits z f (suc n) zero b ≡ digits z f n zero b
      digits_none zero b = refl
      digits_none (suc n) b = refl
  digits_more zero (suc a) b p = absurd (omega arith)
  digits_more (suc n) (suc a) b p =
      ap (λ t. t * 2 + f (suc a % 2) (b % 2)) (digits_more n (suc a / 2) (b / 2) (omega arith))

  digits_spare : (spare n a b : ℕ) → a ≤ n → digits z f (n + spare) a b ≡ digits z f n a b
  digits_spare zero n a b p = let same : n + 0 ≡ n = omega arith in ap (λ t. digits z f t a b) same
  digits_spare (suc spare) n a b p =
      let next : n + suc spare ≡ suc (n + spare) = omega arith in
      ap (λ t. digits z f t a b) next
      ∙ digits_more (n + spare) a b (omega arith)
      ∙ digits_spare spare n a b p

  -- The lowest digit, and the rest with just enough fuel.
  digits_lowest :
      (a b : ℕ)
      → digits z f (suc a) (suc a) b
        ≡ digits z f (suc a / 2) (suc a / 2) (b / 2) * 2 + f (suc a % 2) (b % 2)
  digits_lowest a b =
      let half = suc a / 2 in
      let split : a ≡ half + (a - half) = omega arith in
      ap (λ t. t * 2 + f (suc a % 2) (b % 2))
        (ap (λ t. digits z f t half (b / 2)) split
          ∙ digits_spare (a - half) half half (b / 2) (omega arith))

-- The lowest binary digit of `|`, and the rest.
pub bit_or_digit : (a b : ℕ) → bit_or a b ≡ bit_or (a / 2) (b / 2) * 2 + max (a % 2) (b % 2)
bit_or_digit zero b = omega (arith, bit_or-bitwise 0 b, bit_or-bitwise 0 (b / 2))
bit_or_digit (suc a) b =
    bit_or-bitwise (suc a) b
    ∙ digits_lowest (λ d. d) max a b
    ∙ ap (λ t. t * 2 + max (suc a % 2) (b % 2)) (sym (bit_or-bitwise (suc a / 2) (b / 2)))

-- The lowest binary digit of `&`, and the rest.
pub bit_and_digit : (a b : ℕ) → bit_and a b ≡ bit_and (a / 2) (b / 2) * 2 + min (a % 2) (b % 2)
bit_and_digit zero b = omega (arith, bit_and-bitwise 0 b, bit_and-bitwise 0 (b / 2))
bit_and_digit (suc a) b =
    bit_and-bitwise (suc a) b
    ∙ digits_lowest (λ d. zero) min a b
    ∙ ap (λ t. t * 2 + min (suc a % 2) (b % 2)) (sym (bit_and-bitwise (suc a / 2) (b / 2)))

-- Both operations with zero on the right, by the size of the number on the left.
right_zero : (size a : ℕ) → a ≤ size → (bit_or a 0 ≡ a) × (bit_and a 0 ≡ 0)
right_zero size zero p = (bit_or-bitwise 0 0, bit_and-bitwise 0 0)
right_zero zero (suc a) p = absurd (omega arith)
right_zero (suc size) (suc a) p =
    let (joined, met) = right_zero size (suc a / 2) (omega arith) in
    (omega (arith, bit_or_digit (suc a) 0, joined), omega (arith, bit_and_digit (suc a) 0, met))

-- `(hi << k) | lo` puts two fields side by side.
pub bit_or-eq-add : (k hi lo : ℕ) → lo < 2 ^ k → bit_or (hi * 2 ^ k) lo ≡ hi * 2 ^ k + lo
bit_or-eq-add zero hi zero fits = omega (arith, (right_zero (hi * 1) (hi * 1) (omega arith)).0)
bit_or-eq-add zero hi (suc lo) fits = absurd (omega arith)
bit_or-eq-add (suc k) hi lo fits =
    let twice : hi * 2 ^ suc k ≡ hi * 2 ^ k * 2 =
      omega (arith, ap (λ (t : ℕ). hi * t) (pow-suc 2 k)) in
    omega (
      arith,
      twice,
      pow-suc 2 k,
      bit_or_digit (hi * 2 ^ suc k) lo,
      ap (λ (t : ℕ). bit_or t (lo / 2)) (halved (hi * 2 ^ suc k) (hi * 2 ^ k) twice),
      bit_or-eq-add k hi (lo / 2) (omega (arith, pow-suc 2 k)),
    )
  where
    halved : (a b : ℕ) → a ≡ b * 2 → a / 2 ≡ b
    halved a b e = omega arith

pub pow-pos : (k : ℕ) → 0 < 2 ^ k
pow-pos zero = omega arith
pow-pos (suc k) = omega (arith, pow-suc 2 k, pow-pos k)

mod_digit : (a p : ℕ) → 0 < p → a % (p * 2) ≡ a / 2 % p * 2 + a % 2
mod_digit a p h = grind arith

-- `x & (2^k - 1)` keeps the low `k` bits.
pub bit_and_mask : (k a : ℕ) → bit_and a (2 ^ k - 1) ≡ a % 2 ^ k
bit_and_mask zero a = omega (arith, (right_zero a a (omega arith)).1)
bit_and_mask (suc k) a = omega (
  arith,
  pow-suc 2 k,
  pow-pos k,
  bit_and_digit a (2 ^ suc k - 1),
  ap (λ (t : ℕ). bit_and (a / 2) t) (halved (2 ^ suc k) (2 ^ k) (pow-suc 2 k) (pow-pos k)),
  bit_and_mask k (a / 2),
  mod_digit a (2 ^ k) (pow-pos k),
  ap (λ (t : ℕ). a % t) (pow-suc 2 k),
)
  where
    halved : (q p : ℕ) → q ≡ p * 2 → 0 < p → (q - 1) / 2 ≡ p - 1
    halved q p e h = omega arith
